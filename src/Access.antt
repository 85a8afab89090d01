-- ===== src/Access.antt =====
-- Who may use the daemon, and what the daemon may use: the bearer token of
-- crates/dockermap-daemon/src/auth.rs, the bind host of config.rs, the socket and the label filter of
-- docker_config.rs, and the scope of pid_namespace.rs.
pub mod Token
pub mod Label
pub mod Scope
mod Tests
