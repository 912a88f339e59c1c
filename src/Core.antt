-- ===== src/Core.antt =====
-- crates/core: the kernel with its event store, its messages and its scheduler.
pub mod EventStore
pub mod Events
pub mod Ipc
pub mod Scheduler
