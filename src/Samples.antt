-- ===== src/Samples.antt =====
-- Concrete data for the tests: a workflow that takes an issue to a merged pull request, a task of it,
-- and a world in which every call succeeds.
pub mod Reviewed
use hounds_ciai.Prelude.{ℕ, ◌+◌, ◌*◌, String, Bool, true, false, none, some, [], ◌∷◌}
use hounds_ciai.Result.{ok}
use hounds_ciai.Config.Types.{Trigger, Transition, State, Workflow, no_gate}
use hounds_ciai.Config.Durations.{parse_duration, minute}
use hounds_ciai.Store.{Task, Store}
use hounds_ciai.Github.{PrStatus}
use hounds_ciai.Exec.{done}
use hounds_ciai.Engine.Monad.{
  World, Engine, Sys, Call, Reply, now, start_timer, statement, find_pr, pr_status, fetch_issue,
  merge, delete_remote_branch, close_issue, remove_label, resolve, spawn_agent, read_pane, cleanup,
  events, read_rubric, write_file, remove_verdict, read_verdict, notify, status_change,
}

abbrev never : Trigger
never = record { event = ""; timeout = ""; decision = ""; gate = [] }

abbrev pub on : String → Trigger
on event = record never { event = event }

abbrev moved_to : Trigger → String → Transition
moved_to when to = record { when = when; evaluate = none; to = to; branch = []; action = none }

abbrev pub implementing : State
implementing = record {
  entry = some (record { spawn = "dev"; resume = ""; with_ = ""; action = "" });
  transitions =
      record {
        when = on "agent.done";
        evaluate = some (record { decision = ""; gate = "pr" ∷ [] });
        to = "";
        branch = ("pass", "merging") ∷ ("fail", "stuck") ∷ [];
        action = none;
      }
      ∷ moved_to (record never { timeout = "45m" }) "stuck"
      ∷ [];
  terminal = "";
  wait_for = "";
  alert = false;
}

abbrev merging : State
merging = record {
  entry = some (record { spawn = ""; resume = ""; with_ = ""; action = "merge_pr" });
  transitions = moved_to (on "pr.merged") "merged" ∷ [];
  terminal = "";
  wait_for = "";
  alert = false;
}

abbrev ends : String → Bool → State
ends terminal alert = record {
  entry = none;
  transitions = [];
  terminal = terminal;
  wait_for = "";
  alert = alert;
}

abbrev pub workflow : Bool → Workflow
workflow dry = record {
  version = 1;
  name = "sample";
  entry_state = some "implementing";
  policies = record {
    max_concurrent_tasks = 2;
    dry_run = some dry;
    circuit_breaker = false;
    retry_caps = ("implementing", 1) ∷ [];
    blocked_timeout = "5m";
    drive_deadline = "";
    no_progress_timeout = "";
    execution = record { backend = "herdr"; run_as = ""; sandbox = false };
  };
  sources = [];
  roles =
      (
        "dev",
        record {
          launch = "claude" ∷ [];
          task_delivery = "";
          workspace = "";
          kickoff = "";
          allowed_tools = [];
        },
      )
      ∷ [];
  gates =
      ("pr", record no_gate { type = "github_pr" })
      ∷ ("checks", record no_gate { type = "github_checks"; all_passing = true })
      ∷ [];
  decisions = [];
  states =
      ("implementing", implementing)
      ∷ ("merging", merging)
      ∷ ("merged", ends "success" false)
      ∷ ("stuck", ends "failure" true)
      ∷ [];
}

abbrev pub engine : Bool → Engine
engine dry = record {
  wf = workflow dry;
  workflow_source = "sample";
  repo = "/repo";
  base = "main";
  goal = "";
  start_state = "implementing";
  no_progress = 30 * minute;
  parse_duration = parse_duration;
  base_name = λ s. s;
  parse_config = λ s. none;
}

abbrev pub task : Task
task = record {
  id = "issue-7";
  issue = 7;
  repo = "/repo";
  branch = "agent/issue-7";
  current_state = "implementing";
  pane_id = "";
  pane_spawn_state = "";
  workflow_snapshot = "sample";
  agent_status = "";
  agent_status_at = 0;
  state_entered_at = 0;
  state_entry_head = "";
  pr_number = none;
  retry_counts = [];
  created_at = 1;
  updated_at = 1;
}

abbrev pub other_task : Task
other_task = record task { id = "issue-8"; issue = 8; branch = "agent/issue-8" }

abbrev pub store : Store
store = record { tasks = task ∷ other_task ∷ []; log = [] }

abbrev pub merged_status : PrStatus
merged_status = record {
  state = "MERGED";
  checks_total = 1;
  checks_failed = 0;
  checks_pending = 0;
  approved_reviews = 1;
  review_decision = "";
  mergeable = "MERGEABLE";
  merge_state_status = "CLEAN";
  head_sha = "abc";
}

-- The world's state is its clock.
abbrev answer : (c : Call) → ℕ → Reply c
answer now t = t
answer (start_timer k d) t = tt
answer (statement c) t = true
answer (find_pr b) t = ok (some 12)
answer (pr_status n) t = ok merged_status
answer (fetch_issue n) t = ok (record { number = n; title = "a title"; body = "a body" })
answer (merge n) t = ok tt
answer (delete_remote_branch b) t = ok tt
answer (close_issue n) t = ok tt
answer (remove_label n l) t = ok tt
answer (resolve l) t = ok none
answer (spawn_agent s) t = ok "pane-1"
answer (read_pane p n) t = ok "text"
answer (cleanup id) t = ok tt
answer events t = ok (status_change (record { pane_id = "pane-1"; state = done }) ∷ [])
answer (read_rubric p) t = ok "rubric"
answer (write_file f) t = ok tt
answer (remove_verdict id) t = ok tt
answer (read_verdict id) t = ok none
answer (notify n) t = ok tt

abbrev pub world : World ℕ
world = record { perform = λ c t. (answer c t, t + 1); cause = λ t. none }

abbrev pub start : Sys ℕ
start = record { world = 100; store = store; task = task; trace = [] }
