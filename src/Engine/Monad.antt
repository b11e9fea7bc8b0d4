-- ===== src/Engine/Monad.antt =====
-- The engine's state, the calls that it makes of code outside it, and the monad of its operations.
-- An operation changes the task that it holds, the store, and the world, and records each call in a
-- trace, newest first; like a Go method it keeps those changes when it returns an error.
use hounds_ciai.Prelude.{ℕ, String, Bool, true, false, Option, none, some, List, ◌∷◌}
use hounds_ciai.Result.{Err, Result, ok, err, db_failed, bad_duration}
use hounds_ciai.Config.Types.{Workflow}
use hounds_ciai.Store.{Task, Store}
use hounds_ciai.Github.{PrStatus, Issue}
use hounds_ciai.Exec.{Spawn, PaneEvent}

-- The cause of a done context: an operator's cancel, the scheduler's reaper, or a shutdown.
pub data Cause : Type 0 where
  operator_cancel drive_deadline shutdown : Cause

-- The drive's own context, or one that `context.WithoutCancel` detached from its cancellation.
pub data Ctx : Type 0 where
  attached detached : Ctx

-- The timers of the agent wait.
pub data Timer : Type 0 where
  state_deadline blocked_bound progress_bound : Timer

-- What the `select` of the agent wait can see: a done context, an expired timer, a closed stream, or
-- a status change of some pane.
pub data Signal : Type 0 where
  context_done state_timer blocked_timer progress_timer stream_end : Signal
  status_change : PaneEvent → Signal

-- A notification, with the diagnosis that an escalation carries.
pub record Notice : Type 0 where
  pub task_id : String
  pub issue : ℕ
  pub state : String
  pub kind : String
  pub detail : String
  pub cause : String
  pub recent : List (String × String × String × String)
  pub pane_tail : String
  pub recommended : String

-- A context file that the engine writes for an agent.
pub data TaskFile : Type 0 where
  triage_file : String → Issue → TaskFile
  review_file : String → Option ℕ → String → TaskFile
  feedback_file : Option ℕ → String → String → TaskFile
  issue_file : Issue → TaskFile

-- A verdict file's JSON.
pub record Verdict : Type 0 where
  pub verdict : String
  pub feedback : String

-- The requests that leave the engine: GitHub, the backend, files, the clock, the notifier, and
-- whether a statement of the database succeeds.
pub data Call : Type 0 where
  now : Call
  start_timer : Timer → ℕ → Call
  statement : Ctx → Call
  find_pr : String → Call
  pr_status : ℕ → Call
  fetch_issue : ℕ → Call
  merge : ℕ → Call
  delete_remote_branch : String → Call
  close_issue : ℕ → Call
  remove_label : ℕ → String → Call
  resolve : String → Call
  spawn_agent : Spawn → Call
  read_pane : String → ℕ → Call
  cleanup : String → Call
  events : Call
  read_rubric : String → Call
  write_file : TaskFile → Call
  remove_verdict : String → Call
  read_verdict : String → Call
  notify : Notice → Call

-- What each call answers. A verdict file can be absent (`ok none`), malformed (`err`) or read.
abbrev pub Reply : Call → Type 0
Reply now = ℕ
Reply (start_timer t d) = Unit {0}
Reply (statement c) = Bool
Reply (find_pr b) = Result (Option ℕ)
Reply (pr_status n) = Result PrStatus
Reply (fetch_issue n) = Result Issue
Reply (merge n) = Result (Unit {0})
Reply (delete_remote_branch b) = Result (Unit {0})
Reply (close_issue n) = Result (Unit {0})
Reply (remove_label n l) = Result (Unit {0})
Reply (resolve l) = Result (Option String)
Reply (spawn_agent s) = Result String
Reply (read_pane p n) = Result String
Reply (cleanup t) = Result (Unit {0})
Reply events = Result (List Signal)
Reply (read_rubric p) = Result String
Reply (write_file f) = Result (Unit {0})
Reply (remove_verdict t) = Result (Unit {0})
Reply (read_verdict t) = Result (Option Verdict)
Reply (notify n) = Result (Unit {0})

-- Everything outside the engine, over a state of its own.
pub record World (W : Type 0) : Type 0 where
  pub perform : (c : Call) → W → Reply c × W
  pub cause : W → Option Cause

-- The engine's configuration. `parse_duration` is its `DurationFunc`, in nanoseconds; `parse_config`
-- is `config.Parse` of a stored snapshot; `base_name` is `filepath.Base`; `no_progress` is the resolved liveness bound.
pub record Engine : Type 0 where
  pub wf : Workflow
  pub workflow_source : String
  pub repo : String
  pub base : String
  pub goal : String
  pub start_state : String
  pub no_progress : ℕ
  pub parse_duration : String → Option ℕ
  pub base_name : String → String
  pub parse_config : String → Option Workflow

pub record Sys (W : Type 0) : Type 0 where
  pub world : W
  pub store : Store
  pub task : Task
  pub trace : List Call

abbrev pub M : Type 0 → Type 0 → Type 0
M W A = Sys W → Result A × Sys W

module _ {W : Type 0} where
  unfoldable pub pure : {A : Type 0} → A → M W A
  pure a s = (ok a, s)

  unfoldable pub raise : {A : Type 0} → Err → M W A
  raise e s = (err e, s)

  -- The rest of a block, run unless the step before it raised.
  unfoldable pub continue : {A B : Type 0} → (A → M W B) → Result A × Sys W → Result B × Sys W
  continue f (ok a, s) = f a s
  continue f (err e, s) = (err e, s)

  infixl 5 ◌>>=◌ ◌>>◌
  unfoldable pub ◌>>=◌ : {A B : Type 0} → M W A → (A → M W B) → M W B
  unfolding continue
  ◌>>=◌ m f s = continue f (m s)

  abbrev pub ◌>>◌ : {A B : Type 0} → M W A → M W B → M W B
  m >> k = m >>= λ _. k

  -- A failed result is raised.
  unfoldable pub from_result : {A : Type 0} → Result A → M W A
  from_result r s = (r, s)

  -- A failure is handed back as a value, as where the code logs it and goes on.
  unfoldable pub caught : {A : Type 0} → M W A → M W (Result A)
  caught m s = let (r, s') = m s in (ok r, s')

  unfoldable pub or_raise : {A : Type 0} → Option A → Err → M W A
  or_raise none e s = (err e, s)
  or_raise (some a) e s = (ok a, s)

  -- `if` between operations.
  unfoldable pub branch : {A : Type 0} → Bool → M W A → M W A → M W A
  branch true m n = m
  branch false m n = n

  unfoldable pub get_task : M W Task
  get_task s = (ok s.task, s)

  unfoldable pub get_store : M W Store
  get_store s = (ok s.store, s)

  unfoldable pub set_task : Task → M W (Unit {0})
  set_task t s = (ok tt, record s { task = t })

  unfoldable pub set_store : Store → M W (Unit {0})
  set_store d s = (ok tt, record s { store = d })

  module _ (ext : World W) where
    -- One call of the world, recorded in the trace.
    unfoldable pub call : (c : Call) → M W (Reply c)
    call c s =
        let (r, w) = ext.perform c s.world in (ok r, record s { world = w; trace = c ∷ s.trace })

    -- Whether the drive's context is done, and why.
    unfoldable pub get_cause : M W (Option Cause)
    get_cause s = (ok (ext.cause s.world), s)

    -- A statement of the database under a context.
    unfoldable pub statement_ok : Ctx → M W (Unit {0})
    statement_ok c = do done ← call (statement c); branch done (pure tt) (raise db_failed)

  -- A duration of the workflow, by the engine's parser.
  abbrev pub parse : Engine → String → M W ℕ
  parse e d = or_raise (e.parse_duration d) bad_duration
