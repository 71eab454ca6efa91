-- ===== src/Table.antt =====
-- Tables, their indexes, and the statements on them: src/sql/executor.rs.
pub mod Schema
pub mod Keys
pub mod Bloom
pub mod Index
pub mod Store
pub mod Indexed
pub mod Conflicts
pub mod Scan
pub mod Validate
pub mod Insert
pub mod Change
pub mod Automatic
pub mod Ddl
pub mod Declared
pub mod Unique
pub mod Sound
pub mod Faults
mod Examples
