-- ===== src/Db.antt =====
-- The SQL database: src/sql/database.rs.
pub mod Catalog
pub mod Log
pub mod TextMap
pub mod PlanCache
pub mod Database
pub mod Plans
pub mod Session
pub mod Durable
pub mod Runs
pub mod Commit
pub mod Autocommit
pub mod System
pub mod Linked
pub mod Calls
pub mod Serializable
pub mod Executor
pub mod Faults
mod Examples
mod Committed
