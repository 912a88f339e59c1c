-- ===== src/Fabric.antt =====
-- crates/fabric: the priority queue of collection tasks and the sessions that track them.
pub mod Task
pub mod Queue
pub mod Session
