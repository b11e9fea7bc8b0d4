-- ===== src/Engine/Quietly.antt =====
-- The lemmas on all operations of the engine but `advance` and what calls it.
pub mod Writes
pub mod Gates
pub mod Leads
pub mod Spawning
pub mod Merging
pub mod Waiting
pub mod States
