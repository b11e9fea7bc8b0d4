-- ===== src/Exec.antt =====
-- internal/exec: what the engine sees of an execution backend.
pub mod Hub
pub mod Herdr
use hounds_ciai.Prelude.{String, Bool, List, ◌==◌, string_eq, if◌then◌else◌}

pub data AgentState : Type 0 where
  working blocked done idle unknown : AgentState

abbrev pub agent_state_text : AgentState → String
agent_state_text working = "working"
agent_state_text blocked = "blocked"
agent_state_text done = "done"
agent_state_text idle = "idle"
agent_state_text unknown = "unknown"

-- `normalizeState`.
unfoldable pub normalize_state : String → AgentState
normalize_state s =
    if s == "idle"
    then idle
    else if s == "working"
    then working
    else if s == "blocked"
    then blocked
    else if s == "done"
    then done
    else unknown

pub record Spawn : Type 0 where
  pub task_id : String
  pub role : String
  pub branch : String
  pub repo_dir : String
  pub base : String
  pub launch : List String
  pub kickoff : String
  pub preserve_branch : Bool

pub record PaneEvent : Type 0 where
  pub pane_id : String
  pub state : AgentState
