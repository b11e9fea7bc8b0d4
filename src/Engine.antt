-- ===== src/Engine.antt =====
-- internal/engine: the interpreter that drives one task through its workflow.
pub mod Monad
pub mod Lookup
pub mod Notices
pub mod Transitions
pub mod Gates
pub mod Spawning
pub mod Waiting
pub mod Merging
pub mod Naming
pub mod Recovering
pub mod Steps
pub mod Runs
pub mod Paths
pub mod Quietly
pub mod Driving
pub mod Resuming
pub mod Advances
pub mod Refines
pub mod Reconciles
pub mod Promises
pub mod OverGithub
pub mod Accepted
pub mod Laws
pub mod Configured
pub mod Executable
