-- ===== src/Engine/Notices.antt =====
-- internal/engine/engine.go: alerts, escalations and the diagnosis that they carry.
use hounds_ciai.Prelude.{
  ℕ, String, not, ◌||◌, List, [], ◌∷◌, ◌==◌, string_eq, if◌then◌else◌, take, map,
}
use Prim.Native.String.{◌++◌ as text_append}
use text.Mathlib.Text.{starts_with}
use hounds_ciai.Result.{ok, err}
use hounds_ciai.Config.Types.{state_of}
use hounds_ciai.Store.{Task, AuditEntry, Store, append_audit, rows_of}
use hounds_ciai.Engine.Monad.{
  World, Engine, M, Notice, attached, read_pane, notify, now, Ctx, pure, branch, caught, get_task,
  get_store, set_store, call, statement_ok, ◌>>=◌, ◌>>◌,
}

abbrev pub alert_history : ℕ
alert_history = 3

abbrev pub alert_pane_lines : ℕ
alert_pane_lines = 25

-- `recommendFor`: what a human is advised to do, by the cause's prefix.
unfoldable pub recommend_for : String → String
recommend_for cause =
    if starts_with cause "blocked_timeout"
    then "The agent sat blocked on an interactive prompt. Read its pane (read-only) to see which one, add the tool to permissions.allow, then open a fresh issue — a settled task cannot be re-driven."
    else if starts_with cause "no_progress"
    then "The agent produced no observable output for the no_progress window. Read its pane (read-only): a prompt means fix the allow-list; a dead pane means check herdr. Then open a fresh issue."
    else if starts_with cause "drive_deadline"
    then "The drive outlived its wall-clock ceiling, so it was reaped from outside. Check for a wedged subprocess or an over-scoped task, then open a fresh issue."
    else if starts_with cause "timeout"
    then "The agent ran past its state timeout. Read its pane (read-only) to tell a slow task from a permission wedge, then either raise the state's timeout or narrow the issue, and open a fresh one."
    else if starts_with cause "retry_exhausted"
    then "The reviewer and implementer disagreed until the retry cap ran out. Read the PR's review history; this usually needs a human to settle the disagreement or clarify the issue."
    else if starts_with cause "agent.done:fail" || starts_with cause "agent.done"
    then "The agent reported done but the gate found no artifact — typically no PR, or no new commits since the review. Check the agent's worktree and the issue's clarity."
    else if cause == ""
    then "Read the task's audit trail (get_audit) and the agent's pane to determine why it escalated."
    else "Read the task's audit trail (get_audit) and the agent's pane, then act on the cause above."

-- The rows of an escalation, most recent first, and the cause that the newest one names.
abbrev pub row_view : AuditEntry → String × String × String × String
row_view r = (r.from_state, r.to_state, r.trigger, r.result)

unfoldable pub recent_rows : String → Store → List (String × String × String × String)
recent_rows id s = map row_view (take alert_history (rows_of id s.log))

unfoldable pub cause_of : List (String × String × String × String) → String
cause_of [] = ""
cause_of ((from, to, trigger, result) ∷ rs) =
    if not (result == "") then text_append trigger (text_append ":" result) else trigger

module _ {W : Type 0} (ext : World W) where
  -- `notify`: a failed delivery is swallowed.
  unfoldable pub send : Notice → M W (Unit {0})
  send n = call ext (notify n) >> pure tt

  -- The audit part of `explain`: nothing when the read fails.
  unfoldable pub read_recent : Ctx → Task → M W (List (String × String × String × String))
  read_recent c task = do
    r ← caught (statement_ok ext c)
    d ← get_store
    pure (elim r [ ok _ ↦ recent_rows task.id d | err _ ↦ [] ])

  -- The pane part of `explain`: nothing without a pane, or when the read fails.
  unfoldable pub read_tail : Task → M W String
  read_tail task = branch (task.pane_id == "") (pure "") do
    r ← call ext (read_pane task.pane_id alert_pane_lines)
    pure (elim r [ ok tail ↦ tail | err _ ↦ "" ])

  -- `notifyTerminalAlert` with `explain`.
  unfoldable pub notify_terminal_alert : Engine → Ctx → M W (Unit {0})
  unfolding read_recent read_tail
  notify_terminal_alert e c = do
    task ← get_task
    branch (not (state_of e.wf task.current_state).alert) (pure tt) do
      recent ← read_recent c task
      tail ← read_tail task
      send (record {
        task_id = task.id;
        issue = task.issue;
        state = task.current_state;
        kind = "escalated";
        detail = "";
        cause = cause_of recent;
        recent = recent;
        pane_tail = tail;
        recommended = recommend_for (cause_of recent);
      })

  -- `AppendAudit`: one statement, and the clock for its timestamp.
  unfoldable pub append_row : Ctx → String → String → String → String → M W (Unit {0})
  append_row c from to trigger result = do
    task ← get_task
    t ← call ext now
    statement_ok ext c
    d ← get_store
    set_store (
        append_audit t
          (record {
            task_id = task.id;
            ts = 0;
            from_state = from;
            to_state = to;
            trigger = trigger;
            result = result;
          })
          d)

  -- `alert`: an audit row that changes no state, best effort, and a notification.
  unfoldable pub alert : String → M W (Unit {0})
  alert msg = do
    task ← get_task
    caught (
        append_row attached task.current_state task.current_state "agent.blocked"
          (text_append "alert:" msg))
    send (record {
      task_id = task.id;
      issue = task.issue;
      state = task.current_state;
      kind = "alert";
      detail = msg;
      cause = "";
      recent = [];
      pane_tail = "";
      recommended = "";
    })
