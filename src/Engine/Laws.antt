-- ===== src/Engine/Laws.antt =====
-- What single operations of the interpreter promise.
pub mod Escalation
pub mod Halting
pub mod Retries
pub mod Window
pub mod GateRuns
