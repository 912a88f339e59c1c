-- ===== src/Tests.antt =====
-- The theorems at concrete inputs, and runs of the operations on small data.
pub mod Queues
pub mod Sessions
pub mod Programs
pub mod Machines
pub mod Storage
pub mod Kernel
pub mod Tasks
pub mod Recall
pub mod Queries
