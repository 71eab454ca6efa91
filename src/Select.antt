-- ===== src/Select.antt =====
-- The execution of queries: src/sql/executor.rs.
pub mod Join
pub mod Project
pub mod Keys
pub mod Distinct
pub mod Order
pub mod Execute
mod Examples
