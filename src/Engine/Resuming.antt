-- ===== src/Engine/Resuming.antt =====
-- internal/engine/engine.go: `reconcile`, `ensureTask` and `Run`.
use hounds_ciai.Prelude.{
  ℕ, String, Bool, true, false, not, Option, none, some, [], ◌==◌, string_eq, if◌then◌else◌,
}
use hounds_ciai.Result.{Result, ok, err, not_found, no_transition, bad_snapshot}
use hounds_ciai.Config.Types.{Workflow, state_of}
use hounds_ciai.Config.Durations.{resolve_no_progress_timeout}
use hounds_ciai.Store.{Task, Store}
use hounds_ciai.Store
use hounds_ciai.Engine.Monad.{
  World, Engine, M, attached, now, find_pr, resolve, pure, raise, branch, caught, get_task,
  get_store, set_task, set_store, from_result, call, statement_ok, ◌>>=◌, ◌>>◌,
}
use hounds_ciai.Engine.Lookup.{state_has_agent, done_branch_target}
use hounds_ciai.Engine.Naming.{task_id, branch_name}
use hounds_ciai.Engine.Transitions.{persist, advance}
use hounds_ciai.Engine.Driving.{drive, reclassify_cancel}

module _ {W : Type 0} (ext : World W) where
  -- `reconcile`: the pane is resolved anew, and an implementing task with a PR advances.
  unfoldable pub pane_of : Option String → String
  pane_of none = ""
  pane_of (some p) = p

  unfoldable pub advance_to_done : Engine → String → M W (Unit {0})
  advance_to_done e target =
      branch (target == "") (raise no_transition) (advance ext e attached target "reconcile" "pass")

  unfoldable pub with_pr : Engine → Option ℕ → M W (Unit {0})
  unfolding advance_to_done
  with_pr e none = persist ext attached
  with_pr e (some n) = do
    task ← get_task
    set_task (record task { pr_number = some n })
    advance_to_done e (done_branch_target e.wf "implementing" "pass")

  unfoldable pub reconcile_pr : Engine → M W (Unit {0})
  unfolding with_pr
  reconcile_pr e = do
    task ← get_task
    branch (task.current_state == "implementing")
        (call ext (find_pr task.branch) >>= λ r. from_result r >>= with_pr e) (persist ext attached)

  unfoldable pub reconcile : Engine → M W (Unit {0})
  unfolding pane_of reconcile_pr
  reconcile e = do
    task ← get_task
    branch (not (state_has_agent (state_of e.wf task.current_state))) (pure tt) (
        call ext (resolve task.id) >>= λ r.
        from_result r >>= λ h. set_task (record task { pane_id = pane_of h }) >> reconcile_pr e)

  -- `cloneWithWorkflow` and `engineForTask`: a task is driven by the workflow that it started under.
  unfoldable pub clone_with_workflow : Engine → Workflow → Engine
  clone_with_workflow e wf = record e {
    wf = wf;
    no_progress = elim (resolve_no_progress_timeout wf.policies) [ none ↦ 0 | some d ↦ d ];
  }

  unfoldable pub engine_for_task : Engine → Task → Result Engine
  unfolding clone_with_workflow
  engine_for_task e task =
      if task.workflow_snapshot == "" then ok e else elim (e.parse_config task.workflow_snapshot) [
        | none ↦ err bad_snapshot
        | some wf ↦ ok (clone_with_workflow e wf)
      ]

  -- `ensureTask`: whether the task is new.
  abbrev pub new_task : Engine → ℕ → Task
  new_task e issue = record {
    id = task_id issue;
    issue = issue;
    repo = e.repo;
    branch = branch_name issue;
    current_state = e.start_state;
    pane_id = "";
    pane_spawn_state = "";
    workflow_snapshot = e.workflow_source;
    agent_status = "";
    agent_status_at = 0;
    state_entered_at = 0;
    state_entry_head = "";
    pr_number = none;
    retry_counts = [];
    created_at = 0;
    updated_at = 0;
  }

  unfoldable pub create : Engine → ℕ → M W Bool
  create e issue = do
    t ← call ext now
    statement_ok ext attached
    d ← get_store
    d' ← from_result (Store.create_task t (new_task e issue) d)
    set_store d'
    set_task (Store.stamp_new t (new_task e issue))
    pure true

  unfoldable pub found_or_create : Engine → ℕ → Result Task → M W Bool
  found_or_create e issue (ok task) = set_task task >> pure false
  found_or_create e issue (err not_found) = create e issue
  found_or_create e issue (err x) = raise x

  unfoldable pub ensure_task : Engine → ℕ → M W Bool
  unfolding create found_or_create
  ensure_task e issue = do
    statement_ok ext attached
    d ← get_store
    found_or_create e issue (Store.get_task (task_id issue) d)

  unfoldable pub reconciled : Engine → ℕ → Result (Unit {0}) → M W String
  reconciled e rounds (ok _) = drive ext e rounds
  reconciled e rounds (err x) = reclassify_cancel ext e (err x)

  -- A task that already existed is driven by its snapshot's engine, after a reconcile.
  unfoldable pub resume_task : Engine → ℕ → M W String
  unfolding reconciled
  resume_task e rounds = do
    task ← get_task
    eng ← from_result (engine_for_task e task)
    caught (reconcile eng) >>= reconciled eng rounds

  -- `Run`.
  unfoldable pub run : Engine → ℕ → ℕ → M W String
  unfolding resume_task
  run e rounds issue = do
    created ← ensure_task e issue
    branch created (drive ext e rounds) (resume_task e rounds)
