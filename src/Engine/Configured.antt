-- ===== src/Engine/Configured.antt =====
-- internal/engine/engine.go: `New`, the defaults of a configured engine. Directories, the logger, the
-- clock and the clients are the world's.
use hounds_ciai.Prelude.{ℕ, String, Option, none, some, ◌==◌, string_eq, if◌then◌else◌}
use hounds_ciai.Config.Types.{Workflow}
use hounds_ciai.Config.Durations.{parse_duration, resolve_no_progress_timeout}
use hounds_ciai.Engine.Monad.{Engine}

-- `Config`: what may be left out is "" or `none`. `base_name` and `parse_config` are the functions of
-- path/filepath and of internal/config that the engine calls.
pub record EngineConfig : Type 0 where
  pub workflow : Workflow
  pub workflow_source : String
  pub repo : String
  pub base : String
  pub goal : String
  pub start_state : String
  pub duration_func : Option (String → Option ℕ)
  pub no_progress_timeout : Option ℕ
  pub base_name : String → String
  pub parse_config : String → Option Workflow

-- `resolveNoProgress`: an override, else the workflow's bound, else none.
unfoldable pub resolve_no_progress : Option ℕ → Workflow → ℕ
resolve_no_progress (some d) wf = d
resolve_no_progress none wf = elim (resolve_no_progress_timeout wf.policies) [
  | none ↦ 0
  | some d ↦ d
]

abbrev or_text : String → String → String
or_text s d = if s == "" then d else s

unfoldable pub new_engine : EngineConfig → Engine
unfolding resolve_no_progress
new_engine c = record {
  wf = c.workflow;
  workflow_source = c.workflow_source;
  repo = c.repo;
  base = c.base;
  goal = or_text c.goal "merged";
  start_state = or_text c.start_state "queued";
  no_progress = resolve_no_progress c.no_progress_timeout c.workflow;
  parse_duration = elim c.duration_func [ none ↦ parse_duration | some f ↦ f ];
  base_name = c.base_name;
  parse_config = c.parse_config;
}
