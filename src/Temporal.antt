-- ===== src/Temporal.antt =====
-- crates/temporal-graph: what holds at which time.
pub mod Interval
