-- ===== src/Publication.antt =====
-- crates/dockermap-daemon/src/publication.rs: what leaves the daemon. Each text that a provider
-- controls is replaced when it looks like a secret, and cleared of unsafe characters otherwise.
pub mod Sensitive
pub mod Normalized
pub mod Tokens
pub mod Safe
pub mod Entities
pub mod Told
pub mod Snapshot
pub mod Again
pub mod Topology
mod Tests
