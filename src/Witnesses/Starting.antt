-- ===== src/Witnesses/Starting.antt =====
-- The theorems on the preflight, the control server's requests and the commands, at concrete data.
use hounds_ciai.Prelude.{
  ℕ, ◌+◌, ltb, String, Bool, true, false, ◌≡◌, ◌↔◌, refl, some, [], ◌∷◌, In, here, ◌==◌, string_eq,
  if◌then◌else◌,
}
use hounds_ciai.Config.Types.{Workflow, text, state_of}
use hounds_ciai.Config.Types.{
  decision_ref, gate_refs, targets, gate_of, is_timeout, has_timeout_transition, source_label,
}
use hounds_ciai.Config.Graph.{build_graph}
use hounds_ciai.Config.Durations.{
  resolve_no_progress_timeout, resolve_drive_deadline, parse_duration, longest_state_timeout,
}
use hounds_ciai.Engine.Executable.{check_executable, drivable}
use hounds_ciai.Engine.Lookup.{state_has_agent}
use hounds_ciai.Daemon.{watched_label, repo_slug}
use hounds_ciai.Doctor.Checks.{
  check_config, check_herdr_binary, check_herdr_server, check_agent_binary,
}
use hounds_ciai.Doctor.Checks.Github.{
  check_gh_auth, check_gh_token_env, check_gh_repo, check_gh_label,
}
use hounds_ciai.Doctor.Checks.Repository.{
  check_repo_checkout, check_base_branch, check_base_current, check_worktrees_dir,
}
use hounds_ciai.Doctor.Checks.Delivery.{check_store}
use hounds_ciai.Cli.{wire, doctor_env}
use hounds_ciai.Config.Validate.{parse, faults_of}
use hounds_ciai.Doctor.Outside.{
  Env, with_defaults, Probe, process, given, natural, Host, Session, pure, ◌>>=◌, ask, choose,
  either,
}
use hounds_ciai.Doctor.{run_checks, run_check, all_checks, any_failed}
use hounds_ciai.Doctor.Asking.{Allowed}
use hounds_ciai.Doctor.Laws.{Tallies, run_checks-Allowed, run_checks-Tallies}
use hounds_ciai.Cli.{DaemonFlags, System, Start, serves, exits, validate_text, wire_source}
use hounds_ciai.Cli.Commands.{cmd_daemon}
use hounds_ciai.Cli.Starting.{Launched, Harmless, cmd_daemon-Launched}
use hounds_ciai.Cli.Validating.{blames_config, validate_text-wires}
use hounds_ciai.Samples.{workflow}

-- The sample workflow, with a source.
abbrev watched : Workflow
watched = record (workflow true) {
  sources =
      record {
        id = "issues";
        type = "github_issues";
        repo = "o/r";
        select = ("label", text "agent-ready") ∷ [];
        emits_to = "";
      }
      ∷ [];
}

-- Every command succeeds, and nothing lacks.
abbrev outside : Host ℕ
outside = record {
  ask = λ p w. (given "0", w);
  cancelled = λ w. false;
  trim = λ s. s;
  quoted = λ s. s;
  dir_of = λ s. s;
  labels_of = λ s. given ("agent-ready" ∷ []);
  atoi = λ s. some (natural 0);
  validate_schema = λ s. some [];
  unmarshal = λ s. some watched;
  error_text = λ e. "refused";
  warning_text = λ w. "warning";
}

abbrev machine : System
machine = record {
  abs = λ p. some p;
  base_name = λ p. p;
  getenv = λ v. if v == "GH_TOKEN" then "secret" else "";
  look_path = λ c. some c;
  opens = λ p. true;
  listens = λ a. true;
}

abbrev surroundings : Env
surroundings = record {
  smoker = true;
  config_path = "pipeline.yaml";
  config_source = "text";
  workflow = some watched;
  repo_dir = "/repo";
  repo_slug = "o/r";
  base = "";
  label = "agent-ready";
  worktrees_dir = "";
  db_path = "tasks.db";
  git_bin = "";
  gh_bin = "";
  herdr_bin = "";
  getenv = machine.getenv;
  look_path = machine.look_path;
  temp_dir = "";
}

abbrev unstarted : Session ℕ
unstarted = record { world = 0; trace = [] }

-- An outside whose context ends with the first call.
abbrev brief : Host ℕ
brief = record outside { ask = λ p w. (given "0", w + 1); cancelled = λ w. ltb 0 w }

asks_version :
    In
      (process "" ("herdr" ∷ "--version" ∷ []))
      (run_checks brief false surroundings unstarted).1.trace
unfolding run_checks run_check pure ask choose either ◌>>=◌ check_config check_herdr_binary
asks_version = here

run_checks-Allowed_example :
    Allowed brief false (with_defaults surroundings) (process "" ("herdr" ∷ "--version" ∷ []))
run_checks-Allowed_example =
    run_checks-Allowed brief false surroundings 0 (process "" ("herdr" ∷ "--version" ∷ []))
      asks_version

run_checks-Tallies_example :
    Tallies (all_checks brief) (run_checks brief false surroundings unstarted).0
run_checks-Tallies_example = run_checks-Tallies brief false surroundings 0

-- Another token in the same variable.
abbrev other_token : String → String
other_token v = if v == "GH_TOKEN" then "another" else ""

abbrev flags : DaemonFlags
flags = record {
  common = record {
    config = "pipeline.yaml";
    repo = "/repo";
    base = "main";
    db = "tasks.db";
    worktrees_dir = "";
  };
  event_log = "";
  mcp_listen = "127.0.0.1:7777";
  skip_preflight = false;
}

cmd_daemon-Launched_example :
    Launched outside flags (cmd_daemon outside machine (some flags) unstarted).0
    × ((p : Probe) → In p (cmd_daemon outside machine (some flags) unstarted).1.trace → Harmless p)
cmd_daemon-Launched_example = cmd_daemon-Launched outside machine flags 0

abbrev is_serving : Start → Bool
is_serving (exits n) = false
is_serving (serves v) = true

daemon_serves : is_serving (cmd_daemon outside machine (some flags) unstarted).0 ≡ true
unfolding cmd_daemon wire doctor_env faults_of state_of decision_ref gate_refs targets gate_of
    build_graph resolve_no_progress_timeout resolve_drive_deadline parse_duration
    longest_state_timeout is_timeout has_timeout_transition check_executable drivable
    state_has_agent watched_label source_label run_checks run_check any_failed all_checks pure ask
    choose either ◌>>=◌ parse check_config check_herdr_binary check_herdr_server check_agent_binary
    check_gh_auth check_gh_token_env check_gh_repo check_gh_label check_repo_checkout
    check_base_branch check_base_current check_worktrees_dir check_store with_defaults repo_slug
daemon_serves = refl

validate_text-wires_example :
    (validate_text outside "text" ≡ 0)
    ↔ (blames_config (wire_source outside machine flags.common "text" unstarted).0 ≡ false)
validate_text-wires_example = validate_text-wires outside machine flags.common "text" unstarted
