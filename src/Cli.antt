-- ===== src/Cli.antt =====
-- cmd/orchestratord/main.go and doctor.go: the commands, from their flags to an exit code. Files, the
-- store, processes and the context are the preflight's outside; what is printed, and the parsing of
-- flags by package flag, are left out.
pub mod Commands
pub mod Starting
pub mod Validating
pub mod Scaffold
use hounds_ciai.Prelude.{
  ℕ, String, Bool, true, false, not, ◌&&◌, ◌||◌, Option, none, some, List, [], ◌∷◌, ◌==◌, string_eq,
  nat_eq, if◌then◌else◌, ltb,
}
use hounds_ciai.Result.{Result, ok, err}
use hounds_ciai.Config.Types.{Workflow}
use hounds_ciai.Config.Durations.{resolve_no_progress_timeout, resolve_drive_deadline}
use hounds_ciai.Config.Validate.{
  LoadError, schema_stage, semantic_stage, unreadable, unschemed, undecoded, Loaded, parse, load,
}
use hounds_ciai.Engine.Monad.{Engine}
use hounds_ciai.Engine.Executable.{check_executable}
use hounds_ciai.Engine.Configured.{new_engine}
use hounds_ciai.Daemon.{watched_label, settled_states, repo_slug}
use hounds_ciai.Doctor.Outside.{
  CheckResult, Env, Probe, read_file, open_store, close_store, Host, D, pure, ◌>>=◌, ask, either,
  choose,
}
use hounds_ciai.Doctor.{any_failed, run_checks}

-- `commonFlags`, as far as they are read here.
pub record CommonFlags : Type 0 where
  pub config : String
  pub repo : String
  pub base : String
  pub db : String
  pub worktrees_dir : String

pub record DaemonFlags : Type 0 where
  pub common : CommonFlags
  pub event_log : String
  pub mcp_listen : String
  pub skip_preflight : Bool

-- The operating system: absolute paths, the environment and PATH, the base name of a path, and whether
-- a file opens and an address can be listened on.
pub record System : Type 0 where
  pub abs : String → Option String
  pub base_name : String → String
  pub getenv : String → String
  pub look_path : String → Option String
  pub opens : String → Bool
  pub listens : String → Bool

-- Whether an error of Load or Parse is a `ValidationErrors`.
unfoldable pub is_validation : LoadError → Bool
is_validation (schema_stage vs) = true
is_validation (semantic_stage fs) = true
is_validation unreadable = false
is_validation unschemed = false
is_validation undecoded = false

-- `cmdValidate`, from what Load gives.
unfoldable pub executable_exit : List String → ℕ
executable_exit [] = 0
executable_exit (x ∷ xs) = 1

unfoldable pub workflow_exit : Option Workflow → ℕ
unfolding executable_exit
workflow_exit none = 2
workflow_exit (some wf) = executable_exit (check_executable wf)

unfoldable pub validate_exit : Option LoadError → Option Workflow → ℕ
unfolding is_validation workflow_exit
validate_exit (some e) wf = if is_validation e then 1 else 2
validate_exit none wf = workflow_exit wf

-- `cmdPlan`, which renders the plan when it exits with 0.
unfoldable pub plan_exit : Option LoadError → ℕ
unfolding is_validation
plan_exit none = 0
plan_exit (some e) = if is_validation e then 1 else 2

-- The exit of `cmdRun` after a run: a real merge, or the halt of a dry run.
unfoldable pub run_exit : Result String → ℕ
run_exit (err e) = 1
run_exit (ok final) = if final == "merged" || final == "merging" then 0 else 1

unfoldable pub recover_exit : Result (Unit {0}) → ℕ
recover_exit (err e) = 1
recover_exit (ok u) = 0

-- `wired`.
pub record Wired : Type 0 where
  pub engine : Engine
  pub workflow : Workflow
  pub repo_dir : String

-- What `wire` comes to: a config that is refused, one that the interpreter cannot drive, another
-- failure, or an engine.
pub data Wiring : Type 0 where
  invalid : LoadError → Wiring
  not_executable : List String → Wiring
  unwired : Wiring
  wired_up : Wired → Wiring

-- A daemon that serves, with what its scheduler is given.
pub record Service : Type 0 where
  pub wired : Wired
  pub label : String
  pub settled : List String
  pub workers : ℕ
  pub drive_deadline : ℕ

pub data Start : Type 0 where
  exits : ℕ → Start
  serves : Service → Start

-- At least one worker.
abbrev pub workers_of : ℕ → ℕ
workers_of n = if ltb n 1 then 1 else n

module _ {W : Type 0} (host : Host W) where
  -- `config.Parse`.
  unfoldable pub parsed : String → Loaded
  parsed = parse host.validate_schema host.unmarshal

  -- `config.Parse` as the engine uses it on a snapshot.
  unfoldable pub parse_snapshot : String → Option Workflow
  unfolding parsed
  parse_snapshot text = let l = parsed text in elim l.error [ none ↦ l.workflow | some e ↦ none ]

  unfoldable pub validate_text : String → ℕ
  unfolding validate_exit parsed
  validate_text src = validate_exit (parsed src).error (parsed src).workflow

  -- `cmdValidate` and `cmdPlan`: Load is the read of the file and Parse.
  unfoldable pub cmd_validate : List String → D W ℕ
  unfolding validate_text
  cmd_validate (path ∷ []) =
      ask host (read_file path) >>= either (λ why. pure 2) (λ src. pure (validate_text src))
  cmd_validate [] = pure 2
  cmd_validate (a ∷ b ∷ args) = pure 2

  unfoldable pub cmd_plan : List String → D W ℕ
  unfolding plan_exit parsed
  cmd_plan (path ∷ []) =
      ask host (read_file path)
      >>= either (λ why. pure 2) (λ src. pure (plan_exit (parsed src).error))
  cmd_plan [] = pure 2
  cmd_plan (a ∷ b ∷ args) = pure 2

module _ {W : Type 0} (host : Host W) (sys : System) where
  -- The engine that `wire` builds.
  unfoldable pub engine_of : CommonFlags → String → Workflow → Engine
  unfolding parse_snapshot
  engine_of cf raw wf = new_engine (record {
    workflow = wf;
    workflow_source = raw;
    repo = repo_slug wf;
    base = cf.base;
    goal = "";
    start_state = elim wf.entry_state [ none ↦ "" | some s ↦ s ];
    duration_func = none;
    no_progress_timeout = none;
    base_name = sys.base_name;
    parse_config = parse_snapshot host;
  })

  unfoldable pub wire_store : CommonFlags → String → Workflow → Option String → D W Wiring
  unfolding engine_of
  wire_store cf raw wf none = pure unwired
  wire_store cf raw wf (some dir) =
      ask host (open_store cf.db)
      >>= either (λ why. pure unwired)
          (λ opened.
            pure
              (wired_up (record { engine = engine_of cf raw wf; workflow = wf; repo_dir = dir })))

  unfoldable pub wire_executable : CommonFlags → String → Workflow → List String → D W Wiring
  unfolding wire_store
  wire_executable cf raw wf (x ∷ xs) = pure (not_executable (x ∷ xs))
  wire_executable cf raw wf [] = wire_store cf raw wf (sys.abs cf.repo)

  unfoldable pub wire_loaded :
      CommonFlags → String → Option LoadError → Option Workflow → D W Wiring
  unfolding wire_executable
  wire_loaded cf raw (some e) wf = pure (invalid e)
  wire_loaded cf raw none none = pure unwired
  wire_loaded cf raw none (some wf) = wire_executable cf raw wf (check_executable wf)

  unfoldable pub wire_source : CommonFlags → String → D W Wiring
  unfolding wire_loaded parsed
  wire_source cf raw = wire_loaded cf raw (parsed host raw).error (parsed host raw).workflow

  -- `wire`.
  unfoldable pub wire : CommonFlags → D W Wiring
  unfolding wire_source
  wire cf = ask host (read_file cf.config) >>= either (λ why. pure unwired) (wire_source cf)

  -- `doctorEnv`: a config that does not parse gives no workflow, and the rest of the environment.
  unfoldable pub env_of : CommonFlags → String → String → Option Workflow → Env
  env_of cf src dir wf = record {
    smoker = elim wf [ none ↦ false | some w ↦ true ];
    config_path = cf.config;
    config_source = src;
    workflow = wf;
    repo_dir = dir;
    repo_slug = elim wf [ none ↦ "" | some w ↦ repo_slug w ];
    base = cf.base;
    label = elim wf [ none ↦ "" | some w ↦ elim (watched_label w) [ none ↦ "" | some l ↦ l ] ];
    worktrees_dir = cf.worktrees_dir;
    db_path = cf.db;
    git_bin = "";
    gh_bin = "";
    herdr_bin = "";
    getenv = sys.getenv;
    look_path = sys.look_path;
    temp_dir = "";
  }

  unfoldable pub doctor_env : CommonFlags → D W (Option Env)
  unfolding env_of parse_snapshot
  doctor_env cf =
      ask host (read_file cf.config)
      >>= either (λ why. pure none)
          (λ src.
            let dir = if cf.repo == "" then some "" else sys.abs cf.repo in
            pure (elim dir [
              | none ↦ none
              | some d ↦ some (env_of cf src d (parse_snapshot host src))
            ]))

  -- `cmdDoctor`: none are flags that do not parse.
  unfoldable pub report_exit : List CheckResult → ℕ
  report_exit rs = if any_failed rs then 1 else 0

  unfoldable pub doctor_run : Bool → Option Env → D W ℕ
  unfolding report_exit
  doctor_run quick none = pure 2
  doctor_run quick (some env) = run_checks host (not quick) env >>= λ rs. pure (report_exit rs)

  unfoldable pub cmd_doctor : Option (CommonFlags × Bool) → D W ℕ
  unfolding doctor_run doctor_env
  cmd_doctor none = pure 2
  cmd_doctor (some (cf, quick)) =
      choose (cf.config == "") (pure 2) (doctor_env cf >>= doctor_run quick)
