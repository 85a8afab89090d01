-- ===== src/Findings/Reported.antt =====
-- The publication boundary and the findings together: the collision of identities that is appended
-- to the published map.
pub mod Lookup
pub mod Appended
pub mod Fact
