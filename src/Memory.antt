-- ===== src/Memory.antt =====
-- crates/memory: stores of what the platform remembers.
pub mod Working
