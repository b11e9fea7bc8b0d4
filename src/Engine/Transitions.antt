-- ===== src/Engine/Transitions.antt =====
-- internal/engine/engine.go: `advance`, the single mutation point of a task's state, and the writes
-- that go with it.
use hounds_ciai.Prelude.{ℕ, String, not, ◌||◌, none, some, ◌==◌, string_eq}
use hounds_ciai.Result.{ok, err}
use hounds_ciai.Config.Types.{source_label}
use hounds_ciai.Store.{Task, update_task}
use hounds_ciai.Engine.Monad.{
  World, Engine, M, Ctx, attached, now, pr_status, remove_label, pure, branch, caught, get_task,
  get_store, set_task, set_store, from_result, call, statement_ok, ◌>>=◌, ◌>>◌,
}
use hounds_ciai.Engine.Lookup.{is_settled, state_gates_on_commits}
use hounds_ciai.Engine.Notices.{append_row}

module _ {W : Type 0} (ext : World W) where
  -- `UpdateTask`: the task's `UpdatedAt` moves also when the statement then fails.
  unfoldable pub persist : Ctx → M W (Unit {0})
  persist c = do
    task ← get_task
    t ← call ext now
    set_task (record task { updated_at = t })
    statement_ok ext c
    d ← get_store
    d' ← from_result (update_task (record task { updated_at = t }) d)
    set_store d'

  -- `headBaseline`: read only for a state that gates on commits, and "" when it cannot be read.
  unfoldable pub read_head : ℕ → M W String
  read_head pr = do
    r ← call ext (pr_status pr)
    pure (elim r [ ok status ↦ status.head_sha | err _ ↦ "" ])

  unfoldable pub head_baseline : Engine → Task → M W String
  unfolding read_head
  head_baseline e task = elim task.pr_number [
    | none ↦ pure ""
    | some pr ↦ branch (state_gates_on_commits e.wf task.current_state) (read_head pr) (pure "")
  ]

  -- `maybeDrainLabel`: best effort, once the task has settled.
  unfoldable pub maybe_drain_label : Engine → Task → M W (Unit {0})
  maybe_drain_label e task =
      branch (not (is_settled e task.current_state) || source_label e.wf == "") (pure tt)
        (call ext (remove_label task.issue (source_label e.wf)) >> pure tt)

  -- The change of state itself, after its audit row is written.
  unfoldable pub enter_state : Engine → String → M W (Unit {0})
  enter_state e next = do
    task ← get_task
    t ← call ext now
    set_task (record task { current_state = next; state_entered_at = t })

  -- The head that the task enters its state with.
  unfoldable pub record_baseline : Engine → M W (Unit {0})
  record_baseline e = do
    task ← get_task
    head ← head_baseline e task
    set_task (record task { state_entry_head = head })

  unfoldable pub advance : Engine → Ctx → String → String → String → M W (Unit {0})
  unfolding enter_state record_baseline
  advance e c next trigger result = do
    before ← get_task
    append_row ext c before.current_state next trigger result
    enter_state e next
    record_baseline e
    persist c
    task ← get_task
    maybe_drain_label e task

  -- `recordAgentStatus`: written on a change of status only, best effort.
  unfoldable pub record_agent_status : String → M W (Unit {0})
  record_agent_status status = do
    task ← get_task
    branch (status == "" || task.agent_status == status) (pure tt) do
      t ← call ext now
      set_task (record task { agent_status = status; agent_status_at = t })
      caught (persist attached)
      pure tt
