-- ===== src/Storage.antt =====
-- internal/storage: the SQLite store.
pub mod Schema
pub mod Exec
pub mod Statements
pub mod Inserts
pub mod Consistency
pub mod Keeps
pub mod Kept
pub mod Numbering
pub mod Retry
pub mod Retention
pub mod Space
pub mod Queries
pub mod Snapshots
pub mod Restore
pub mod Migrate
