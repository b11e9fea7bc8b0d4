-- ===== src/Engine/Spawning.antt =====
-- internal/engine: the agent of a state's entry, its context file and its kickoff (engine.go,
-- decision.go), and the retry cap that is checked before it is resumed. The kickoff and the files are
-- kept by what they say, not by their wording; paths are not modelled.
use hounds_ciai.Prelude.{
  ℕ, suc, String, Bool, true, false, not, ◌&&◌, Option, none, some, List, [], ◌∷◌, ◌++◌, ◌==◌,
  string_eq, leb, if◌then◌else◌, is_nonempty,
}
use hounds_ciai.Prelude.Maps.{lookup, lookup_or, insert}
use hounds_ciai.Result.{ok, err, undeclared, no_transition, file_failed}
use hounds_ciai.Config.Types.{State, Entry, Role, decision_of}
use hounds_ciai.Store.{Task}
use hounds_ciai.Engine.Monad.{
  World, Engine, M, attached, TaskFile, triage_file, review_file, feedback_file, issue_file,
  fetch_issue, resolve, spawn_agent, read_rubric, write_file, remove_verdict, read_verdict, pure,
  raise, branch, get_task, set_task, from_result, or_raise, call, ◌>>=◌, ◌>>◌,
}
use hounds_ciai.Engine.Lookup.{find_event_transition, decision_for_state}
use hounds_ciai.Engine.Transitions.{persist}

-- Whether the launcher's base name is claude's; `base` is `filepath.Base`.
abbrev pub is_claude : List String → (String → String) → Bool
is_claude [] base = false
is_claude (l ∷ ls) base = base l == "claude"

-- `launchArgs`: the role's tools are passed on to the one launcher that takes them.
unfoldable pub launch_args : (String → String) → Role → List String
launch_args base r =
    if is_nonempty r.allowed_tools && is_claude r.launch base
    then r.launch ++ ("--allowedTools" ∷ r.allowed_tools)
    else r.launch

-- What a kickoff asks for: the role's own line, or one of the engine's.
pub data Kickoff : Type 0 where
  own : String → Kickoff
  implement review triage address_feedback : Kickoff

abbrev pub kickoff_text : Kickoff → String
kickoff_text (own s) = s
kickoff_text implement = "implement"
kickoff_text review = "review"
kickoff_text triage = "triage"
kickoff_text address_feedback = "address feedback"

abbrev pub has_pr : Option ℕ → Bool
has_pr none = false
has_pr (some n) = true

module _ {W : Type 0} (ext : World W) where
  -- `readRubric`.
  unfoldable pub load_rubric : String → M W String
  load_rubric rel =
      branch (rel == "") (raise file_failed) (call ext (read_rubric rel) >>= from_result)

  unfoldable pub write : TaskFile → M W (Unit {0})
  write f = call ext (write_file f) >>= from_result

  -- `clearVerdict`: the verdict of a prior round must not be read as this one's.
  unfoldable pub clear_verdict : Task → M W (Unit {0})
  clear_verdict task = call ext (remove_verdict task.id) >>= from_result

  -- `reviewerTask`.
  unfoldable pub reviewer_task : Engine → Task → String → M W Kickoff
  unfolding load_rubric write clear_verdict
  reviewer_task e task name = do
    rubric ← load_rubric (decision_of e.wf name).impl.rubric
    write (review_file rubric task.pr_number task.branch)
    clear_verdict task
    pure review

  -- `triageTask`.
  unfoldable pub triage_task : Engine → Task → String → M W Kickoff
  unfolding load_rubric write clear_verdict
  triage_task e task name = do
    rubric ← load_rubric (decision_of e.wf name).impl.rubric
    r ← call ext (fetch_issue task.issue)
    issue ← from_result r
    write (triage_file rubric issue)
    clear_verdict task
    pure triage

  -- The feedback of `feedbackTask`: empty when the verdict cannot be read.
  unfoldable pub read_feedback : Task → String → M W String
  read_feedback task with_ =
      branch (with_ == "review_feedback")
        (call ext (read_verdict task.id) >>= λ r.
          pure (elim r [ err _ ↦ "" | ok v ↦ elim v [ none ↦ "" | some v ↦ v.feedback ] ]))
        (pure "")

  unfoldable pub feedback_task : Task → String → M W Kickoff
  unfolding read_feedback write
  feedback_task task with_ = do
    feedback ← read_feedback task with_
    write (feedback_file task.pr_number task.branch feedback)
    pure address_feedback

  -- `writeTaskFile` and `kickoff`.
  unfoldable pub issue_task : Role → Task → M W Kickoff
  unfolding write
  issue_task r task = do
    reply ← call ext (fetch_issue task.issue)
    issue ← from_result reply
    write (issue_file issue)
    pure (if not (r.kickoff == "") then own r.kickoff else implement)

  -- `agentTask`: a decision state gets a triage task before there is a PR and a review task after.
  unfoldable pub decision_task : Engine → Task → String → Option ℕ → M W Kickoff
  decision_task e task dec none = triage_task e task dec
  decision_task e task dec (some n) = reviewer_task e task dec

  unfoldable pub work_task : Task → Role → Option Entry → M W Kickoff
  work_task task r none = issue_task r task
  work_task task r (some en) =
      branch (not (en.resume == "")) (feedback_task task en.with_) (issue_task r task)

  unfoldable pub agent_task : Engine → Task → State → Role → M W Kickoff
  unfolding decision_task work_task
  agent_task e task st r =
      branch (not (decision_for_state st == ""))
        (decision_task e task (decision_for_state st) task.pr_number) (work_task task r st.entry)

  -- The fresh spawn of `spawn`: the pane is recorded with the state that it was spawned for.
  unfoldable pub spawn_fresh : Engine → String → State → M W (Unit {0})
  spawn_fresh e role st = do
    r ← or_raise (lookup role e.wf.roles) undeclared
    task ← get_task
    kickoff ← agent_task e task st r
    reply ← call ext (
        spawn_agent (record {
          task_id = task.id;
          role = role;
          branch = task.branch;
          repo_dir = e.repo;
          base = e.base;
          launch = launch_args e.base_name r;
          kickoff = kickoff_text kickoff;
          preserve_branch = has_pr task.pr_number;
        }))
    pane ← from_result reply
    task' ← get_task
    set_task (record task' { pane_id = pane; pane_spawn_state = task'.current_state })
    persist ext attached

  -- A live agent of this very state is reused; one that cannot be resolved stops the drive.
  unfoldable pub reuse : Task → Option String → M W Bool
  reuse task none = pure false
  reuse task (some pane) = do set_task (record task { pane_id = pane }); pure true

  unfoldable pub try_reuse : M W Bool
  unfolding reuse
  try_reuse = do
    task ← get_task
    branch (not (task.pane_id == "") && task.pane_spawn_state == task.current_state)
        (call ext (resolve task.id) >>= λ r. from_result r >>= reuse task) (pure false)

  -- `spawn`.
  unfoldable pub spawn : Engine → String → State → M W (Unit {0})
  unfolding try_reuse
  spawn e role st = do reused ← try_reuse; branch reused (pure tt) (spawn_fresh e role st)

  -- `checkRetryCap`: `some` target when the cap is exceeded.
  unfoldable pub count_retry : State → ℕ → ℕ → M W (Option String)
  count_retry st limit count = branch (leb count limit) (pure none) (
      or_raise (find_event_transition st "retry_exhausted") no_transition >>= λ t. pure (some t.to))

  unfoldable pub bump_retry : State → Option ℕ → M W (Option String)
  unfolding count_retry
  bump_retry st none = pure none
  bump_retry st (some limit) = do
    task ← get_task
    let count = suc (lookup_or task.current_state 0 task.retry_counts)
    set_task (record task { retry_counts = insert task.current_state count task.retry_counts })
    count_retry st limit count

  unfoldable pub check_retry_cap : Engine → State → M W (Option String)
  unfolding bump_retry
  check_retry_cap e st = do
    task ← get_task
    bump_retry st (lookup task.current_state e.wf.policies.retry_caps)
