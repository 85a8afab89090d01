-- ===== src/Findings.antt =====
-- crates/dockermap-core/src/findings.rs: the advisory findings that the published runtime map
-- supports.
pub mod Shapes
pub mod Candidates
pub mod Texts
pub mod Survey
pub mod Status
pub mod Ends
pub mod Rules
pub mod Derive
pub mod Summary
pub mod Attested
pub mod Reported
pub mod Samples
mod Tests
