-- ===== src/Store.antt =====
-- internal/store: the task rows and the append-only audit log. The SQL statements are written out
-- over lists; SQLite itself is not modelled, and a statement that fails is the caller's `db_failed`.
-- Times are nanoseconds, 0 the zero time. Columns hold the task's fields themselves: their text
-- encoding (JSON retry counts, RFC 3339 times) is not modelled. A nil and an empty retry map are one.
pub mod Laws
pub mod Columns
pub mod Migrations
use hounds_ciai.Prelude.{
  ℕ, String, Bool, true, false, not, ◌&&◌, Option, none, some, List, [], ◌∷◌, ◌==◌, string_eq,
  nat_eq, if◌then◌else◌, any, find?, filter,
}
use hounds_ciai.Prelude.Sorting.{str_leb}
use hounds_ciai.Result.{Result, ok, err, not_found, db_failed}
use mathlib.Core.List.{reverse}

pub record Task : Type 0 where
  pub id : String
  pub issue : ℕ
  pub repo : String
  pub branch : String
  pub current_state : String
  pub pane_id : String
  pub pane_spawn_state : String
  pub workflow_snapshot : String
  pub agent_status : String
  pub agent_status_at : ℕ
  pub state_entered_at : ℕ
  pub state_entry_head : String
  pub pr_number : Option ℕ
  pub retry_counts : List (String × ℕ)
  pub created_at : ℕ
  pub updated_at : ℕ

pub record AuditEntry : Type 0 where
  pub task_id : String
  pub ts : ℕ
  pub from_state : String
  pub to_state : String
  pub trigger : String
  pub result : String

-- The two tables. The log is newest first: `ORDER BY id DESC` is the list's own order.
pub record Store : Type 0 where
  pub tasks : List Task
  pub log : List AuditEntry

abbrev has_row : String → List Task → Bool
has_row id = any (λ (t : Task). t.id == id)

-- `if t.CreatedAt.IsZero() { t.CreatedAt = now }`.
abbrev pub or_now : ℕ → ℕ → ℕ
or_now t now = if t == 0 then now else t

-- `CreateTask`: the stamped task, and an INSERT that the primary key may refuse.
unfoldable pub stamp_new : ℕ → Task → Task
stamp_new now t = record t {
  created_at = or_now t.created_at now;
  updated_at = or_now t.updated_at now;
}

unfoldable pub create_task : ℕ → Task → Store → Result Store
unfolding stamp_new
create_task now t s =
    if has_row t.id s.tasks
    then err db_failed
    else ok (record s { tasks = stamp_new now t ∷ s.tasks })

-- `GetTask`: SELECT … WHERE id = ?.
unfoldable pub get_task : String → Store → Result Task
get_task id s = elim (find? (λ (t : Task). t.id == id) s.tasks) [
  | none ↦ err not_found
  | some t ↦ ok t
]

-- UPDATE's SET list: the mutable columns. `issue`, `workflow_snapshot` and `created_at` stay.
unfoldable pub set_columns : Task → Task → Task
set_columns t row = record row {
  repo = t.repo;
  branch = t.branch;
  current_state = t.current_state;
  pane_id = t.pane_id;
  pane_spawn_state = t.pane_spawn_state;
  state_entry_head = t.state_entry_head;
  agent_status = t.agent_status;
  agent_status_at = t.agent_status_at;
  state_entered_at = t.state_entered_at;
  pr_number = t.pr_number;
  retry_counts = t.retry_counts;
  updated_at = t.updated_at;
}

unfoldable pub update_rows : Task → List Task → List Task
unfolding set_columns
update_rows t [] = []
update_rows t (r ∷ rs) = (if r.id == t.id then set_columns t r else r) ∷ update_rows t rs

-- `UpdateTask` once the task's `UpdatedAt` is bumped; no affected row is `ErrNotFound`.
unfoldable pub update_task : Task → Store → Result Store
update_task t s =
    if has_row t.id s.tasks then ok (record s { tasks = update_rows t s.tasks }) else err not_found

insert_by_id : Task → List Task → List Task
insert_by_id t [] = t ∷ []
insert_by_id t (r ∷ rs) = if str_leb t.id r.id then t ∷ r ∷ rs else r ∷ insert_by_id t rs

sort_by_id : List Task → List Task
unfolding insert_by_id
sort_by_id [] = []
sort_by_id (t ∷ ts) = insert_by_id t (sort_by_id ts)

-- `List`: every row, ordered by id.
unfoldable pub list_tasks : Store → List Task
unfolding sort_by_id
list_tasks s = sort_by_id s.tasks

-- `AppendAudit`: an entry with no time is stamped.
unfoldable pub append_audit : ℕ → AuditEntry → Store → Store
append_audit now e s = record s { log = record e { ts = or_now e.ts now } ∷ s.log }

abbrev is_entry : String → String → AuditEntry → Bool
is_entry id state e = e.task_id == id && e.to_state == state && not (e.from_state == state)

-- `StateEntryTime`: the newest transition into the state from another one.
unfoldable pub state_entry_time : String → String → Store → Option ℕ
state_entry_time id state s = elim (find? (is_entry id state) s.log) [
  | none ↦ none
  | some e ↦ some e.ts
]

abbrev pub rows_of : String → List AuditEntry → List AuditEntry
rows_of id = filter (λ (e : AuditEntry). e.task_id == id)

-- `Audit`: the task's rows, oldest first.
unfoldable pub audit : String → Store → List AuditEntry
audit id s = reverse (rows_of id s.log)
