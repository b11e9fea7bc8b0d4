-- ===== src/Config.antt =====
-- internal/config: the workflow types and the durations that they resolve to.
pub mod Types
pub mod Durations
pub mod Graph
pub mod Validate
