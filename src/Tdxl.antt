-- ===== src/Tdxl.antt =====
-- crates/tdxl: the knowledge IR of the query language and its optimiser.
pub mod Kir
pub mod Meaning
pub mod WellFormed
pub mod Optimizer
pub mod Token
pub mod Lexer
