-- ===== src/Store/Laws.antt =====
-- The store as its single writer sees it: reads after writes, and entry times.
use hounds_ciai.Prelude.{
  ℕ, String, true, ◌≡◌, refl, ◌≢◌, inl, inr, none, some, List, [], ◌∷◌, ◌==◌, string_eq, nat_eq,
  if◌then◌else◌, any, find?, arith, eq_iff, Bool-cases,
}
use hounds_ciai.Result.{ok, err, not_found}
use hounds_ciai.Store.{
  Task, AuditEntry, Store, get_task, set_columns, update_rows, update_task, append_audit,
  state_entry_time,
}

has_row-of-find :
    (id : String) (rows : List Task) (row : Task)
    → find? (λ (r : Task). r.id == id) rows ≡ some row
    → any (λ (r : Task). r.id == id) rows ≡ true
has_row-of-find id [] row h = cc
has_row-of-find id (r ∷ rs) row h = ground (arith, has_row-of-find id rs row)

find_row-update_rows :
    (t : Task) (rows : List Task) (row : Task)
    → find? (λ (r : Task). r.id == t.id) rows ≡ some row
    → find? (λ (r : Task). r.id == t.id) (update_rows t rows) ≡ some (set_columns t row)
unfolding update_rows
find_row-update_rows t [] row h = cc
find_row-update_rows t (r ∷ rs) row h = elim (Bool-cases (r.id == t.id)) [
  | inl e ↦ ground (arith, e)
  | inr e ↦ ground (arith, e, find_row-update_rows t rs row)
]

find_row-update_rows_ne :
    (t : Task) (id : String) (rows : List Task)
    → id ≢ t.id
    → find? (λ (r : Task). r.id == id) (update_rows t rows) ≡ find? (λ (r : Task). r.id == id) rows
unfolding update_rows
find_row-update_rows_ne t id [] ne = refl
find_row-update_rows_ne t id (r ∷ rs) ne =
    ground (arith, eq_iff r.id t.id, eq_iff r.id id, find_row-update_rows_ne t id rs)

-- A row as a write of the task `t` leaves the row `before`.
pub record Overwritten (t before row : Task) : Type 0 where
  pub id : row.id ≡ before.id
  pub issue : row.issue ≡ before.issue
  pub workflow_snapshot : row.workflow_snapshot ≡ before.workflow_snapshot
  pub created_at : row.created_at ≡ before.created_at
  pub repo : row.repo ≡ t.repo
  pub branch : row.branch ≡ t.branch
  pub current_state : row.current_state ≡ t.current_state
  pub pane_id : row.pane_id ≡ t.pane_id
  pub pane_spawn_state : row.pane_spawn_state ≡ t.pane_spawn_state
  pub state_entry_head : row.state_entry_head ≡ t.state_entry_head
  pub agent_status : row.agent_status ≡ t.agent_status
  pub agent_status_at : row.agent_status_at ≡ t.agent_status_at
  pub state_entered_at : row.state_entered_at ≡ t.state_entered_at
  pub pr_number : row.pr_number ≡ t.pr_number
  pub retry_counts : row.retry_counts ≡ t.retry_counts
  pub updated_at : row.updated_at ≡ t.updated_at

set_columns-Overwritten : (t before : Task) → Overwritten t before (set_columns t before)
unfolding set_columns
set_columns-Overwritten t before = record {
  id = refl;
  issue = refl;
  workflow_snapshot = refl;
  created_at = refl;
  repo = refl;
  branch = refl;
  current_state = refl;
  pane_id = refl;
  pane_spawn_state = refl;
  state_entry_head = refl;
  agent_status = refl;
  agent_status_at = refl;
  state_entered_at = refl;
  pr_number = refl;
  retry_counts = refl;
  updated_at = refl;
}

-- A write to a stored task succeeds, and a read of the task then gives a row with the written repo,
-- branch, state, pane and its spawn state, entry head, agent status and its time, entry time, PR,
-- retry counts and update time, and with the id, issue, workflow snapshot and creation time that it
-- had; the audit log is as it was.
pub update_task-get_task :
    (t before : Task) (s : Store)
    → get_task t.id s ≡ ok before
    → (s' : Store) × (row : Task) × (update_task t s ≡ ok s')
      × (get_task t.id s' ≡ ok row)
      × Overwritten t before row
      × (s'.log ≡ s.log)
unfolding get_task update_task
update_task-get_task t before s h =
    let found : find? (λ (r : Task). r.id == t.id) s.tasks ≡ some before = ground arith in
    (
      record s { tasks = update_rows t s.tasks },
      set_columns t before,
      rw (has_row-of-find t.id s.tasks before found),
      rw (find_row-update_rows t s.tasks before found, get_task),
      set_columns-Overwritten t before,
      refl,
    )

written : (t : Task) (s s' : Store) → update_task t s ≡ ok s' → s'.tasks ≡ update_rows t s.tasks
unfolding update_task
written t s s' h = ground arith

-- A write leaves what is read of every other task as it was.
pub update_task-get_task_ne :
    (t : Task) (s s' : Store) (id : String)
    → id ≢ t.id
    → update_task t s ≡ ok s'
    → get_task id s' ≡ get_task id s
unfolding get_task
update_task-get_task_ne t s s' id ne h =
    rw (written t s s' h, find_row-update_rows_ne t id s.tasks ne, get_task)

pub update_task-log : (t : Task) (s s' : Store) → update_task t s ≡ ok s' → s'.log ≡ s.log
unfolding update_task
update_task-log t s s' h = ground arith

-- A write to a task that has no row is refused as not found.
pub update_task_missing :
    (t : Task) (s : Store) → get_task t.id s ≡ err not_found → update_task t s ≡ err not_found
unfolding get_task update_task
update_task_missing t s h = refused s.tasks (ground arith)
  where
    refused :
        (rows : List Task)
        → find? (λ (r : Task). r.id == t.id) rows ≡ none
        → (if any (λ (r : Task). r.id == t.id) rows
            then ok (record s { tasks = update_rows t s.tasks })
            else err not_found)
          ≡ err not_found
    refused [] n = refl
    refused (r ∷ rs) n = elim (Bool-cases (r.id == t.id)) [
      | inl e ↦ ground (arith, e)
      | inr e ↦ rw e (refused rs (ground (arith, e)))
    ]

-- A row from a state to itself, as a suspended wait or an alert writes, leaves the entry time of
-- every state of every task where it was.
pub state_entry_time_self_loop :
    (now : ℕ) (e : AuditEntry) (s : Store) (id state : String)
    → e.from_state ≡ e.to_state
    → state_entry_time id state (append_audit now e s) ≡ state_entry_time id state s
unfolding state_entry_time append_audit
state_entry_time_self_loop now e s id state h =
    ground (arith, eq_iff e.to_state state, eq_iff e.from_state state)

-- A genuine entry restarts the clock: the entry time becomes the time of that row.
pub state_entry_time_entry :
    (now : ℕ) (e : AuditEntry) (s : Store)
    → e.from_state ≢ e.to_state
    → e.ts ≡ 0
    → state_entry_time e.task_id e.to_state (append_audit now e s) ≡ some now
unfolding state_entry_time append_audit
state_entry_time_entry now e s ne z = ground (
  arith,
  eq_iff e.task_id e.task_id,
  eq_iff e.to_state e.to_state,
  eq_iff e.from_state e.to_state,
)
