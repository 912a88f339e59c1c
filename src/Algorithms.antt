-- ===== src/Algorithms.antt =====
-- crates/algorithms: data structures.
pub mod Merkle
pub mod Lsm
pub mod WorkStealing
pub mod TaskGraph
pub mod BinaryHeap
