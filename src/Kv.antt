-- ===== src/Kv.antt =====
-- The key-value engine: src/persistence.rs and src/kvstore.rs.
pub mod Persistence
pub mod Snapshot
pub mod Store
pub mod Replay
pub mod Durability
pub mod CrashSafety
pub mod Service
pub mod Faults
pub mod Sequence
mod Examples
