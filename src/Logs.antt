-- ===== src/Logs.antt =====
-- crates/dockermap-core/src/logs.rs: log entries, the compound cursor, pagination, and the
-- parser of Docker's log timestamps.
pub mod Cursor
pub mod Page
pub mod Timestamp
mod Tests
