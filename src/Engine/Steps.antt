-- ===== src/Engine/Steps.antt =====
-- What the interpreter promises, with its detail left out: a run is a path of small steps, and the
-- only step that changes a task's state follows an edge of the task's workflow.
use hounds_ciai.Prelude.{ℕ, String, false, ◌≡◌, ◌≢◌, Option, none, some, ◌∷◌, In}
use hounds_ciai.Config.Types.{Workflow, Entry, Transition, state_of, branch_values, dry_run_enabled}
use hounds_ciai.Result.{ok}
use hounds_ciai.Store.{Task, AuditEntry, Store, update_task}
use hounds_ciai.Engine.Monad.{Engine, Sys, Call, merge}
use hounds_ciai.Engine.Lookup.{cancel_state, escalation_target}

-- The fields by which a task is known, and the state that it is in.
pub record Same (t u : Task) : Type 0 where
  pub id : u.id ≡ t.id
  pub issue : u.issue ≡ t.issue
  pub branch : u.branch ≡ t.branch
  pub snapshot : u.workflow_snapshot ≡ t.workflow_snapshot
  pub state : u.current_state ≡ t.current_state

-- The state's entry is the merge action.
abbrev pub entry_action : Option Entry → String
entry_action none = ""
entry_action (some en) = en.action

-- A merge is called only for the task's own PR, in a merge state, with dry_run off.
pub record MayMerge (e : Engine) (t : Task) (pr : ℕ) : Type 0 where
  pub wet : dry_run_enabled e.wf.policies ≡ false
  pub merge_state : entry_action (state_of e.wf t.current_state).entry ≡ "merge_pr"
  pub own_pr : t.pr_number ≡ some pr

abbrev pub MayCall : Engine → Task → Call → Type 0
MayCall e t (merge pr) = MayMerge e t pr
MayCall e t _ = Unit

-- A declared edge: a transition's target or one of its branches, unless it is the empty text, or the target that a bound escalates to.
pub data Edge (wf : Workflow) (from to : String) : Type 0 where
  direct :
      (t : Transition) → In t (state_of wf from).transitions → t.to ≡ to → to ≢ "" → Edge wf from to
  branched :
      (t : Transition)
      → In t (state_of wf from).transitions
      → In to (branch_values t.branch)
      → to ≢ ""
      → Edge wf from to
  escalates : (escalation_target wf from).0 ≡ to → Edge wf from to
  cancels : cancel_state ≡ to → Edge wf from to

-- The fields of an audit row that the chain of states reads.
pub record IsRow (row : AuditEntry) (id from to : String) : Type 0 where
  pub task_id : row.task_id ≡ id
  pub from_state : row.from_state ≡ from
  pub to_state : row.to_state ≡ to

-- The store with one more row of the audit log, and its tasks as they are.
pub record Appends (row : AuditEntry) (d d' : Store) : Type 0 where
  pub log : d'.log ≡ row ∷ d.log
  pub tasks : d'.tasks ≡ d.tasks

module _ {W : Type 0} (e : Engine) where
  -- Steps that leave the task in its state: a call, a change of the task's other fields, a write of
  -- its row, an audit row from the state to itself.
  pub data Quiet (s : Sys W) : Sys W → Type 0 where
    stay : Quiet s s
    calls :
        {t : Sys W} (c : Call) (w : W)
        → Quiet s t
        → MayCall e t.task c
        → Quiet s (record t { world = w; trace = c ∷ t.trace })
    adjusts : {t : Sys W} (u : Task) → Quiet s t → Same t.task u → Quiet s (record t { task = u })
    saves :
        {t : Sys W} (d : Store)
        → Quiet s t
        → update_task t.task t.store ≡ ok d
        → Quiet s (record t { store = d })
    notes :
        {t : Sys W} (d : Store) (row : AuditEntry)
        → Quiet s t
        → IsRow row t.task.id t.task.current_state t.task.current_state
        → Appends row t.store d
        → Quiet s (record t { store = d })

  -- Runs that may also change the state: the audit row and the new state come together.
  pub data Reach (s : Sys W) : Sys W → Type 0 where
    quiet : {t : Sys W} → Quiet s t → Reach s t
    moves :
        {t u : Sys W} (d : Store) (row : AuditEntry) (next : Task)
        → Reach s t
        → IsRow row t.task.id t.task.current_state next.current_state
        → Same (record t.task { current_state = next.current_state }) next
        → Edge e.wf t.task.current_state next.current_state
        → Appends row t.store d
        → Quiet (record t { store = d; task = next }) u
        → Reach s u
