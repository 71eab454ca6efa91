-- ===== src/Sql.antt =====
-- The SQL engine: src/sql.
pub mod Number
pub mod Types
pub mod Expr
pub mod Fold
pub mod Like
pub mod Operators
pub mod Aggregate
pub mod Eval
pub mod InList
pub mod Parameters
pub mod Leaves
pub mod Binding
pub mod Statement
pub mod Prepared
mod Examples
