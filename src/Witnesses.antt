-- ===== src/Witnesses.antt =====
-- Tests, and the theorems at concrete data.
mod Drives
mod Operations
mod Components
pub mod Validation
mod Backends
mod Serving
mod Starting
mod Upkeep
mod OverGithub
mod Scaffolding
