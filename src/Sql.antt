-- ===== src/Sql.antt =====
-- src/sql: expressions.
pub mod Literal
pub mod Binary
pub mod Samples
pub mod Statement
