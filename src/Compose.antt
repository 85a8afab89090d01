-- ===== src/Compose.antt =====
-- The parts of crates/dockermap-core that compare Compose files with the containers of Docker.
pub mod Binding
pub mod Bound
pub mod Missing
pub mod Exact
pub mod Correlate
pub mod Graph
mod Tests
