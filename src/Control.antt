-- ===== src/Control.antt =====
-- internal/mcp/tools.go: the tools of the control server, over the store that they read and the
-- scheduler that they command. JSON-RPC's framing and the rendering of a result as text are left out;
-- a result is what it says. A time is in nanoseconds, 0 the zero time.
pub mod Effects
pub mod Server
use hounds_ciai.Prelude.{
  ℕ, ◌-◌, ◌/◌, String, Bool, true, false, Option, none, some, List, [], ◌∷◌, ◌==◌, string_eq,
  nat_eq, if◌then◌else◌, map,
}
use hounds_ciai.Result.{Result, ok, err, Err}
use hounds_ciai.Store.{Task, AuditEntry, Store, get_task, list_tasks, audit}
use hounds_ciai.Engine.Naming.{task_id}
use hounds_ciai.Scheduler.{Sched, DoneCheck, Refusal, cancel_issue, enqueue_one}

-- `TaskView`: the fields that are shown, with what is omitted as `none` or "".
pub record TaskView : Type 0 where
  pub id : String
  pub issue : ℕ
  pub repo : String
  pub branch : String
  pub state : String
  pub pr_number : Option ℕ
  pub retry_counts : List (String × ℕ)
  pub created_at : ℕ
  pub updated_at : ℕ
  pub agent_status : String
  pub agent_status_for : Option ℕ
  pub state_for : Option ℕ
  pub state_timeout : String
  pub blocked_timeout : String

pub record AuditEntryView : Type 0 where
  pub ts : ℕ
  pub from_state : String
  pub to_state : String
  pub trigger : String
  pub result : String

-- `secondsSince`: an unset time is no age, and a clock that went back shows 0.
unfoldable pub seconds_since : ℕ → ℕ → Option ℕ
seconds_since now at_time = if at_time == 0 then none else some ((now - at_time) / 1000000000)

-- `Deadlines`, which may be left out.
abbrev pub Deadlines : Type 0
Deadlines = Option (String → String × String)

abbrev bounds_of : Deadlines → String → String × String
bounds_of none state = ("", "")
bounds_of (some f) state = f state

unfoldable pub to_task_view : Deadlines → ℕ → Task → TaskView
unfolding seconds_since
to_task_view deadlines now t = record {
  id = t.id;
  issue = t.issue;
  repo = t.repo;
  branch = t.branch;
  state = t.current_state;
  pr_number = t.pr_number;
  retry_counts = t.retry_counts;
  created_at = t.created_at;
  updated_at = t.updated_at;
  agent_status = t.agent_status;
  agent_status_for = seconds_since now t.agent_status_at;
  state_for = seconds_since now t.state_entered_at;
  state_timeout = (bounds_of deadlines t.current_state).0;
  blocked_timeout = (bounds_of deadlines t.current_state).1;
}

unfoldable pub to_audit_view : AuditEntry → AuditEntryView
to_audit_view a = record {
  ts = a.ts;
  from_state = a.from_state;
  to_state = a.to_state;
  trigger = a.trigger;
  result = a.result;
}

-- The argument `issue`: left out, below zero by one more than the number, or a natural number.
pub data IssueArg : Type 0 where
  missing : IssueArg
  below : ℕ → IssueArg
  number : ℕ → IssueArg

pub record CallParams : Type 0 where
  pub name : String
  pub issue : IssueArg

-- What a call answers. Only parameters that do not decode are a protocol error; every other trouble is
-- a result that is marked as an error.
pub data ToolReply : Type 0 where
  invalid_params : ToolReply
  tasks_shown : List TaskView → ToolReply
  task_shown : TaskView → ToolReply
  audit_shown : List AuditEntryView → ToolReply
  cancel_dispatched enqueued : ℕ → ToolReply
  bad_argument : ToolReply
  unknown_tool : String → ToolReply
  read_failed : ToolReply
  refused : Refusal → ToolReply

-- What the handler reads and commands. `reads` says whether a read of the store succeeds.
pub record Handler : Type 0 where
  pub deadlines : Deadlines
  pub check : DoneCheck
  pub now : ℕ
  pub store : Store
  pub reads : Bool

unfoldable pub commanded : ToolReply → Option Refusal × Sched → ToolReply × Sched
commanded done (none, s) = (done, s)
commanded done (some r, s) = (refused r, s)

unfoldable pub show_task : Handler → Result Task → ToolReply
unfolding to_task_view
show_task h (ok t) = task_shown (to_task_view h.deadlines h.now t)
show_task h (err e) = read_failed

unfoldable pub list_tool : Handler → ToolReply
unfolding to_task_view
list_tool h =
    if h.reads
    then tasks_shown (map (to_task_view h.deadlines h.now) (list_tasks h.store))
    else read_failed

-- The `switch` on the tool's name.
unfoldable pub issue_tool : Handler → String → ℕ → Sched → ToolReply × Sched
unfolding commanded show_task to_audit_view
issue_tool h name issue s =
    if name == "get_task"
    then ((if h.reads then show_task h (get_task (task_id issue) h.store) else read_failed), s)
    else if name == "get_audit"
    then (
      (if h.reads
          then audit_shown (map to_audit_view (audit (task_id issue) h.store))
          else read_failed),
      s,
    )
    else if name == "cancel_task"
    then commanded (cancel_dispatched issue) (cancel_issue issue s)
    else if name == "enqueue_task"
    then commanded (enqueued issue) (enqueue_one h.check issue s)
    else (unknown_tool name, s)

unfoldable pub with_issue : Handler → String → IssueArg → Sched → ToolReply × Sched
unfolding issue_tool
with_issue h name missing s = (bad_argument, s)
with_issue h name (below n) s = (bad_argument, s)
with_issue h name (number n) s = if n == 0 then (bad_argument, s) else issue_tool h name n s

-- `callTool`: parameters that do not decode are `none`.
unfoldable pub call_tool : Handler → Option CallParams → Sched → ToolReply × Sched
unfolding with_issue list_tool
call_tool h none s = (invalid_params, s)
call_tool h (some p) s =
    if p.name == "list_tasks" then (list_tool h, s) else with_issue h p.name p.issue s
