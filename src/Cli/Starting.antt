-- ===== src/Cli/Starting.antt =====
-- cmd/orchestratord/main.go: when the daemon serves, and what `validate` promises of it.
use hounds_ciai.Prelude.{
  ℕ, ◌≤◌, String, true, false, ◌≡◌, ◌⊎◌, inl, inr, refl, sym, Option, none, some, List, [], ◌∷◌,
  string_eq, nat_eq, In, arith,
}
use hounds_ciai.Config.Types.{Workflow}
use hounds_ciai.Config.Durations.{resolve_drive_deadline}
use hounds_ciai.Config.Validate.{LoadError, checked, semantic_checks, faults_of, decode, parse}
use hounds_ciai.Engine.Executable.{check_executable}
use hounds_ciai.Daemon.{watched_label, settled_states}
use hounds_ciai.Doctor.Outside.{
  CheckResult, Env, with_defaults, Probe, read_file, open_store, close_store, make_temp, remove_all,
  smoke, process, make_dir, try_file, list_store, Host, Session, D,
}
use hounds_ciai.Doctor.Rules.{
  Meets, Meets-pure, Meets-choose, Meets-bind, Meets-ask, Meets-last, Meets-widen,
}
use hounds_ciai.Doctor.Asking.{Allowed}
use hounds_ciai.Doctor.Laws.{preflight-Meets}
use hounds_ciai.Doctor.{any_failed, run_checks}
use hounds_ciai.Cli.{
  CommonFlags, DaemonFlags, System, Wired, Wiring, invalid, not_executable, unwired, wired_up,
  Service, Start, exits, serves, parsed, wire_store, wire_executable, wire_loaded, wire_source,
  wire, doctor_env,
}
use hounds_ciai.Cli.Commands.{
  closing, when_wired, listen, arm_bounds, after_preflight, judged, preflight, with_label,
  start_wired, cmd_daemon,
}

-- A workflow that Parse accepts is free of faults.
accepted-faults :
    {W : Type 0} (host : Host W) (text : String) {wf : Workflow}
    → (parsed host text).error ≡ none
    → (parsed host text).workflow ≡ some wf
    → faults_of wf ≡ []
unfolding parsed parse decode checked semantic_checks
accepted-faults host text {wf} e w = ground (arith, e, w)

-- A daemon that was let through: its workflow is the one that Parse gave, accepted and executable, and
-- the scheduler gets the workflow's own label, settled states and ceiling, and at least one worker.
pub record Started {W : Type 0} (host : Host W) (v : Service) : Type 0 where
  pub accepted : faults_of v.wired.workflow ≡ []
  pub executable : check_executable v.wired.workflow ≡ []
  pub has_label : watched_label v.wired.workflow ≡ some v.label
  pub settles : v.settled ≡ settled_states v.wired.workflow
  pub bounded : resolve_drive_deadline v.wired.workflow ≡ some v.drive_deadline
  pub staffed : 1 ≤ v.workers

-- Unless it is skipped, a preflight without expensive checks has run, and no check of it failed.
abbrev pub Preflighted : {W : Type 0} → Host W → DaemonFlags → Type 0
Preflighted {W} host f =
    (f.skip_preflight ≡ true)
    ⊎ ((env : Env) × (t : Session W) × (any_failed (run_checks host false env t).0 ≡ false))

abbrev pub Launched : {W : Type 0} → Host W → DaemonFlags → Start → Type 0
Launched host f (exits n) = Unit
Launched host f (serves v) = Started host v × Preflighted host f

-- What a start never asks: to launch an agent, or to make or remove a directory for one.
abbrev pub Harmless : Probe → Type 0
Harmless make_temp = ⊥
Harmless (remove_all dir) = ⊥
Harmless (smoke dir launch kickoff) = ⊥
Harmless _ = Unit

module _ {W : Type 0} (host : Host W) (sys : System) (f : DaemonFlags) where
  abbrev Good : {A : Type 0} → (A → Type 0) → D W A → Type 0
  Good Q m = Meets host Harmless Q m

  closes : (n : ℕ) → Good (Launched host f) (closing host f.common (exits n))
  unfolding closing
  closes n = Meets-last host _ (close_store f.common.db) (exits n) tt tt

  listen-Good :
      (v : Service)
      → Started host v
      → Preflighted host f
      → Good (Launched host f) (listen host sys f v)
  unfolding listen
  listen-Good v s p = Meets-choose host _ _ (λ _. closes 1) (λ _. Meets-pure host _ _ (s, p))

  -- The reports of a preflight, and the session in which it ran.
  abbrev Came : Env → List CheckResult → Type 0
  Came env rs = (t : Session W) × (rs ≡ (run_checks host false env t).0)

  Allowed-Harmless : (env : Env) (p : Probe) → Allowed host false env p → Harmless p
  Allowed-Harmless env make_temp h = cc
  Allowed-Harmless env (remove_all dir) h = cc
  Allowed-Harmless env (smoke dir launch kickoff) h = cc
  Allowed-Harmless env (read_file path) h = tt
  Allowed-Harmless env (process dir argv) h = tt
  Allowed-Harmless env (make_dir dir) h = tt
  Allowed-Harmless env (try_file dir) h = tt
  Allowed-Harmless env (open_store path) h = tt
  Allowed-Harmless env (list_store path) h = tt
  Allowed-Harmless env (close_store path) h = tt

  asks_only : (env : Env) → Good (Came env) (run_checks host false env)
  unfolding run_checks
  asks_only env = record {
    asks =
        (Meets-widen host (Allowed-Harmless (with_defaults env))
          (preflight-Meets host false (with_defaults env))).asks;
    answers = λ s. (s, refl);
  }

  module _ (w : Wired) (accepted : faults_of w.workflow ≡ [])
      (executable : check_executable w.workflow ≡ []) (label : String)
      (has_label : watched_label w.workflow ≡ some label) where
    arm_bounds-Good :
        Preflighted host f
        → (d b : Option ℕ) → resolve_drive_deadline w.workflow ≡ d
        → Good (Launched host f) (arm_bounds host sys f w label d b)
    unfolding arm_bounds
    arm_bounds-Good p none b e = closes 2
    arm_bounds-Good p (some d) none e = closes 2
    arm_bounds-Good p (some d) (some b) e =
        listen-Good _
          (record {
            accepted = accepted;
            executable = executable;
            has_label = has_label;
            settles = refl;
            bounded = e;
            staffed = ground arith;
          })
          p

    after_preflight-Good :
        Preflighted host f → Good (Launched host f) (after_preflight host sys f w label)
    unfolding after_preflight
    after_preflight-Good p = arm_bounds-Good p _ _ refl

    -- The preflight asks what it may, and the start goes on only when nothing failed.
    preflight-Good : (o : Option Env) → Good (Launched host f) (preflight host sys f w label o)
    unfolding preflight judged run_checks
    preflight-Good none = closes 2
    preflight-Good (some env) = Meets-bind host _ (Came env) _ _ (asks_only env) λ rs (t, e).
        Meets-choose host _ _ (λ _. closes 1)
          λ ok_. after_preflight-Good (inr (env, t, rw (sym e) ok_))

    with_label-Good : Good (Launched host f) (with_label host sys f w (some label))
    unfolding with_label doctor_env
    with_label-Good =
        Meets-choose host _ _ (λ e. after_preflight-Good (inl e))
          λ _.
            Meets-bind host _ (λ (o : Option Env). Unit {0}) _ _
              (Meets-ask host _ (read_file f.common.config) tt (λ why. Meets-pure host _ _ tt)
                λ src. Meets-pure host _ _ tt)
              λ o _. preflight-Good o

  start_wired-Good :
      (w : Wired)
      → faults_of w.workflow ≡ []
      → check_executable w.workflow ≡ []
      → Good (Launched host f) (start_wired host sys f w)
  unfolding start_wired
  start_wired-Good w a x = labels _ refl
    where
      labels :
          (o : Option String)
          → watched_label w.workflow ≡ o
          → Good (Launched host f) (with_label host sys f w o)
      labels none e = closes 2
      labels (some label) e = with_label-Good w a x label e

  -- What `wire` hands on.
  abbrev Sound : Wiring → Type 0
  Sound (wired_up w) = (faults_of w.workflow ≡ []) × (check_executable w.workflow ≡ [])
  Sound _ = Unit

  module _ (cf : CommonFlags) where
    wire_store-Good :
        (raw : String) (wf : Workflow)
        → faults_of wf ≡ []
        → check_executable wf ≡ []
        → (dir : Option String) → Good Sound (wire_store host sys cf raw wf dir)
    unfolding wire_store
    wire_store-Good raw wf a x none = Meets-pure host _ _ tt
    wire_store-Good raw wf a x (some dir) =
        Meets-ask host _ (open_store cf.db) tt (λ why. Meets-pure host _ _ tt)
          λ opened. Meets-pure host _ _ (a, x)

    wire_loaded-Good :
        (raw : String) (e : Option LoadError) (o : Option Workflow)
        → (parsed host raw).error ≡ e
        → (parsed host raw).workflow ≡ o
        → Good Sound (wire_loaded host sys cf raw e o)
    unfolding wire_loaded wire_executable
    wire_loaded-Good raw (some e) o p q = Meets-pure host _ _ tt
    wire_loaded-Good raw none none p q = Meets-pure host _ _ tt
    wire_loaded-Good raw none (some wf) p q = drives _ refl
      where
        drives :
            (xs : List String)
            → check_executable wf ≡ xs
            → Good Sound (wire_executable host sys cf raw wf xs)
        drives [] x = wire_store-Good raw wf (accepted-faults host raw p q) x (sys.abs cf.repo)
        drives (y ∷ ys) x = Meets-pure host _ _ tt

    wire-Good : Good Sound (wire host sys cf)
    unfolding wire wire_source
    wire-Good =
        Meets-ask host _ (read_file cf.config) tt (λ why. Meets-pure host _ _ tt)
          λ src. wire_loaded-Good src _ _ refl refl

  when_wired-Good :
      (w : Wiring)
      → Sound w
      → Good (Launched host f) (when_wired (exits 1) (start_wired host sys f) w)
  unfolding when_wired
  when_wired-Good (invalid e) h = Meets-pure host _ _ tt
  when_wired-Good (not_executable xs) h = Meets-pure host _ _ tt
  when_wired-Good unwired h = Meets-pure host _ _ tt
  when_wired-Good (wired_up w) (a, x) = start_wired-Good w a x

  start-Good : Good (Launched host f) (cmd_daemon host sys (some f))
  unfolding cmd_daemon
  start-Good =
      Meets-choose host _ _ (λ _. Meets-pure host _ _ tt)
        λ _.
          Meets-choose host _ _ (λ _. Meets-pure host _ _ tt)
            λ _. Meets-bind host _ Sound _ _ (wire-Good f.common) when_wired-Good

module _ {W : Type 0} (host : Host W) (sys : System) (f : DaemonFlags) (world : W) where
  abbrev begin : Session W
  begin = record { world = world; trace = [] }

  -- Whatever the outside answers, a daemon that comes to serve has a workflow without faults that the
  -- interpreter can drive; its scheduler has the workflow's label, its settled states, its resolved
  -- ceiling on a drive and a worker or more; and unless the flags skip it, a preflight without expensive
  -- checks ran in which no check failed. However the start ends, it launched no agent, and made and
  -- removed no directory for one.
  pub cmd_daemon-Launched :
      Launched host f (cmd_daemon host sys (some f) begin).0
      × ((p : Probe) → In p (cmd_daemon host sys (some f) begin).1.trace → Harmless p)
  cmd_daemon-Launched = (
    (start-Good host sys f).answers begin,
    λ p i. elim ((start-Good host sys f).asks begin p i) [ inl j ↦ elim j [ ] | inr h ↦ h ],
  )
