-- ===== src/Store/Columns.antt =====
-- internal/store/store.go: the text columns of the tasks table, and the statements over them. The
-- codecs of encoding/json and of time are parameters.
pub mod Refines
use hounds_ciai.Prelude.{
  ℕ, String, ◌≡◌, ◌≢◌, refl, sym, ◌∙◌, ap, Option, none, some, List, [], ◌∷◌, ◌==◌, string_eq,
  nat_eq, if◌then◌else◌, find?, find?-some, In, map, Bool-cases, inl, inr, ==_true, ==_ne,
}
use hounds_ciai.Result.{Result, ok, err, not_found, db_failed}
use hounds_ciai.Store.{Task, Store, get_task, set_columns, update_rows}

pub record Codec : Type 0 where
  pub format : ℕ → String
  pub parse_time : String → Option ℕ
  pub encode : List (String × ℕ) → String
  pub decode_counts : String → Option (List (String × ℕ))

-- What the store relies on: RFC3339Nano keeps a time and never prints as the empty text, and JSON
-- keeps a map of counts.
pub record KeepsTime (c : Codec) (t : ℕ) : Type 0 where
  pub back : c.parse_time (c.format t) ≡ some t
  pub visible : c.format t ≢ ""

pub record Keeps (c : Codec) (t : Task) : Type 0 where
  pub created : KeepsTime c t.created_at
  pub updated : KeepsTime c t.updated_at
  pub observed : KeepsTime c t.agent_status_at
  pub entered : KeepsTime c t.state_entered_at
  pub counts : c.decode_counts (c.encode t.retry_counts) ≡ some t.retry_counts

pub record Row : Type 0 where
  pub id : String
  pub issue : ℕ
  pub repo : String
  pub branch : String
  pub current_state : String
  pub pane_id : String
  pub pane_spawn_state : String
  pub workflow_snapshot : String
  pub state_entry_head : String
  pub agent_status : String
  pub agent_status_at : String
  pub state_entered_at : String
  pub pr_number : Option ℕ
  pub retry_counts : String
  pub created_at : String
  pub updated_at : String

module _ (c : Codec) where
  -- `formatTime` and `parseTimeOrZero`.
  unfoldable pub format_time : ℕ → String
  format_time t = if t == 0 then "" else c.format t

  abbrev pub or_zero_time : Option ℕ → ℕ
  or_zero_time none = 0
  or_zero_time (some t) = t

  unfoldable pub parse_time_or_zero : String → ℕ
  parse_time_or_zero s = if s == "" then 0 else or_zero_time (c.parse_time s)

  -- The values of CreateTask's INSERT.
  unfoldable pub row_of : Task → Row
  unfolding format_time
  row_of t = record {
    id = t.id;
    issue = t.issue;
    repo = t.repo;
    branch = t.branch;
    current_state = t.current_state;
    pane_id = t.pane_id;
    pane_spawn_state = t.pane_spawn_state;
    workflow_snapshot = t.workflow_snapshot;
    state_entry_head = t.state_entry_head;
    agent_status = t.agent_status;
    agent_status_at = format_time t.agent_status_at;
    state_entered_at = format_time t.state_entered_at;
    pr_number = t.pr_number;
    retry_counts = c.encode t.retry_counts;
    created_at = c.format t.created_at;
    updated_at = c.format t.updated_at;
  }

  -- The values of UpdateTask's SET.
  unfoldable pub set_row : Task → Row → Row
  unfolding format_time
  set_row t row = record row {
    repo = t.repo;
    branch = t.branch;
    current_state = t.current_state;
    pane_id = t.pane_id;
    pane_spawn_state = t.pane_spawn_state;
    state_entry_head = t.state_entry_head;
    agent_status = t.agent_status;
    agent_status_at = format_time t.agent_status_at;
    state_entered_at = format_time t.state_entered_at;
    pr_number = t.pr_number;
    retry_counts = c.encode t.retry_counts;
    updated_at = c.format t.updated_at;
  }

  unfoldable pub update_sql : Task → List Row → List Row
  unfolding set_row
  update_sql t [] = []
  update_sql t (r ∷ rs) = (if r.id == t.id then set_row t r else r) ∷ update_sql t rs

  -- `scanTask`: counts or a row's own times that do not decode fail the read, the two diagnostic
  -- times degrade to the zero time.
  unfoldable pub scanned : Row → List (String × ℕ) → ℕ → ℕ → Task
  unfolding parse_time_or_zero
  scanned r counts created updated = record {
    id = r.id;
    issue = r.issue;
    repo = r.repo;
    branch = r.branch;
    current_state = r.current_state;
    pane_id = r.pane_id;
    pane_spawn_state = r.pane_spawn_state;
    workflow_snapshot = r.workflow_snapshot;
    agent_status = r.agent_status;
    agent_status_at = parse_time_or_zero r.agent_status_at;
    state_entered_at = parse_time_or_zero r.state_entered_at;
    state_entry_head = r.state_entry_head;
    pr_number = r.pr_number;
    retry_counts = counts;
    created_at = created;
    updated_at = updated;
  }

  unfoldable pub scan_task : Row → Result Task
  unfolding scanned
  scan_task r = elim (c.decode_counts r.retry_counts) [
    | none ↦ err db_failed
    | some counts ↦ elim (c.parse_time r.created_at) [
      | none ↦ err db_failed
      | some created ↦ elim (c.parse_time r.updated_at) [
        | none ↦ err db_failed
        | some updated ↦ ok (scanned r counts created updated)
      ]
    ]
  ]

  -- GetTask's SELECT.
  unfoldable pub select_task : String → List Row → Result Task
  unfolding scan_task
  select_task id rows = elim (find? (λ (r : Row). r.id == id) rows) [
    | none ↦ err not_found
    | some r ↦ scan_task r
  ]
