-- ===== src/Findings/Attested.antt =====
-- What the findings rest on: the edges that they cite and the nodes that they name.
pub mod Cited
pub mod Loops
pub mod Nodes
pub mod Sound
pub mod All
