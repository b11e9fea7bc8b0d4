-- ===== src/Store/Migrations.antt =====
-- internal/store/store.go: `Open`, which creates the tasks table and adds the columns of later versions.
-- A row is a list of cells by column. A statement may fail; SQLite itself is not modelled.
use hounds_ciai.Prelude.{
  String, Bool, true, false, ◌≡◌, refl, ap, ◌∙◌, Option, none, some, List, [], ◌∷◌, ◌++◌, ◌==◌,
  string_eq, if◌then◌else◌, contains, map, In, here, there, In-cons, Bool-cases, inl, inr, arith,
  ==_self,
}
use hounds_ciai.Prelude.Maps.{lookup_or}
use hounds_ciai.Result.{Result, ok, err, db_failed}

abbrev pub Cells : Type 0
Cells = List (String × String)

-- The tasks table.
pub record Table : Type 0 where
  pub columns : List String
  pub rows : List Cells

-- The columns of `schema`.
abbrev pub schema : List String
schema =
    "id" ∷ "issue" ∷ "repo" ∷ "branch" ∷ "current_state" ∷ "pane_id" ∷ "pane_spawn_state"
    ∷ "workflow_snapshot" ∷ "state_entry_head" ∷ "agent_status" ∷ "agent_status_at"
    ∷ "state_entered_at" ∷ "pr_number" ∷ "retry_counts" ∷ "created_at" ∷ "updated_at" ∷ []

-- The columns that `applyMigrations` adds, in its order.
abbrev pub migrations : List String
migrations =
    "pane_spawn_state" ∷ "workflow_snapshot" ∷ "state_entry_head" ∷ "agent_status"
    ∷ "agent_status_at" ∷ "state_entered_at" ∷ []

-- CREATE TABLE IF NOT EXISTS.
unfoldable pub create_table : Option Table → Table
create_table none = record { columns = schema; rows = [] }
create_table (some t) = t

-- ALTER TABLE … ADD COLUMN … DEFAULT '': the error of a column that is there is tolerated.
unfoldable pub add_column : String → Table → Table
add_column c t = if contains t.columns c then t else record {
  columns = t.columns ++ (c ∷ []);
  rows = map (λ (r : Cells). r ++ ((c, "") ∷ [])) t.rows;
}

abbrev failed : Result (Unit {0})
failed = err db_failed

-- `applyMigrations`: the table as the statements up to the first failure left it. `works` says whether
-- the statement for a column succeeds.
unfoldable pub apply_migrations : (String → Bool) → List String → Table → Result (Unit {0}) × Table
unfolding add_column
apply_migrations works [] t = (ok tt, t)
apply_migrations works (c ∷ cs) t =
    let rest = apply_migrations works cs (add_column c t) in
    if works c then rest else (err db_failed, t)

-- `Open`, from the table that the file has, if it has one.
unfoldable pub open_db : (String → Bool) → Bool → Option Table → Result (Unit {0}) × Option Table
unfolding apply_migrations create_table
open_db works creates t =
    if creates
    then (let (r, t') = apply_migrations works migrations (create_table t) in (r, some t'))
    else (err db_failed, t)

contains-append :
    (cs ds : List String) (c : String) → contains cs c ≡ true → contains (cs ++ ds) c ≡ true
contains-append [] ds c h = cc
contains-append (x ∷ cs) ds c h = ground (arith, h, contains-append cs ds c)

contains-append_last : (cs : List String) (c : String) → contains (cs ++ (c ∷ [])) c ≡ true
contains-append_last [] c = rw (==_self c) refl
contains-append_last (x ∷ cs) c = ground (arith, contains-append_last cs c)

add_column-adds : (c : String) (t : Table) → contains (add_column c t).columns c ≡ true
unfolding add_column
add_column-adds c t = elim (Bool-cases (contains t.columns c)) [
  | inl e ↦ rw e e
  | inr e ↦ rw e (contains-append_last t.columns c)
]

add_column-keeps :
    (c d : String) (t : Table)
    → contains t.columns d ≡ true
    → contains (add_column c t).columns d ≡ true
unfolding add_column
add_column-keeps c d t h = elim (Bool-cases (contains t.columns c)) [
  | inl e ↦ rw e h
  | inr e ↦ rw e (contains-append t.columns (c ∷ []) d h)
]

-- A cell, "" where the row has none: what a SELECT reads of a column with that default.
abbrev pub cell : String → Cells → String
cell c r = lookup_or c "" r

cell-append : (c d : String) (r : Cells) → cell d (r ++ ((c, "") ∷ [])) ≡ cell d r
cell-append c d [] = elim (Bool-cases (c == d)) [ inl e ↦ rw e refl | inr e ↦ rw e refl ]
cell-append c d ((x, v) ∷ r) = ground (arith, cell-append c d r)

-- The cells of a column, row by row.
abbrev pub column : String → List Cells → List String
column d rs = map (cell d) rs

column-append :
    (c d : String) (rs : List Cells)
    → column d (map (λ (r : Cells). r ++ ((c, "") ∷ [])) rs) ≡ column d rs
column-append c d [] = refl
column-append c d (r ∷ rs) =
    rw (cell-append c d r) (ap (λ (l : List String). cell d r ∷ l) (column-append c d rs))

add_column-column : (c d : String) (t : Table) → column d (add_column c t).rows ≡ column d t.rows
unfolding add_column
add_column-column c d t = elim (Bool-cases (contains t.columns c)) [
  | inl e ↦ rw e refl
  | inr e ↦ rw e (column-append c d t.rows)
]

module _ (works : String → Bool) where
  pub apply_migrations-column :
      (d : String) (cs : List String) (t : Table)
      → column d (apply_migrations works cs t).1.rows ≡ column d t.rows
  unfolding apply_migrations
  apply_migrations-column d [] t = refl
  apply_migrations-column d (c ∷ cs) t = elim (Bool-cases (works c)) [
    | inl e ↦ rw e (apply_migrations-column d cs (add_column c t) ∙ add_column-column c d t)
    | inr e ↦ rw e refl
  ]

  apply_migrations-keeps :
      (d : String) (cs : List String) (t : Table)
      → contains t.columns d ≡ true
      → contains (apply_migrations works cs t).1.columns d ≡ true
  unfolding apply_migrations
  apply_migrations-keeps d [] t h = h
  apply_migrations-keeps d (c ∷ cs) t h = elim (Bool-cases (works c)) [
    | inl e ↦ rw e (apply_migrations-keeps d cs (add_column c t) (add_column-keeps c d t h))
    | inr e ↦ rw e h
  ]

  apply_migrations-adds :
      (d : String) (cs : List String) (t : Table)
      → (apply_migrations works cs t).0 ≡ ok tt
      → In d cs
      → contains (apply_migrations works cs t).1.columns d ≡ true
  unfolding apply_migrations
  apply_migrations-adds d [] t h i = elim i [ ]
  apply_migrations-adds d (c ∷ cs) t h i = elim (Bool-cases (works c)) [
    | inl e ↦
        let go : (apply_migrations works cs (add_column c t)).0 ≡ ok tt = grind (arith, h, e) in
        rw e (elim (In-cons i) [
          | inl same ↦ apply_migrations-keeps d cs (add_column c t) (rw same (add_column-adds c t))
          | inr j ↦ apply_migrations-adds d cs (add_column c t) go j
        ])
    | inr e ↦ let z : failed ≡ ok tt = grind (arith, h, e) in cc
  ]

  -- Columns that are there are not added again.
  apply_migrations-stable :
      (cs : List String) (t : Table)
      → ((c : String) → In c cs → contains t.columns c ≡ true)
      → (apply_migrations works cs t).1 ≡ t
  unfolding apply_migrations add_column
  apply_migrations-stable [] t h = refl
  apply_migrations-stable (c ∷ cs) t h = elim (Bool-cases (works c)) [
    | inl e ↦ rw (e, h c here) (apply_migrations-stable cs t (λ x i. h x (there i)))
    | inr e ↦ rw e refl
  ]

-- A table that has the columns is left as it is.
reopened :
    (works : String → Bool) (creates : Bool) (t : Table)
    → ((c : String) → In c migrations → contains t.columns c ≡ true)
    → (open_db works creates (some t)).1 ≡ some t
unfolding open_db create_table
reopened works true t h = ap some (apply_migrations-stable works migrations t h)
reopened works false t h = refl

-- What an opening leaves of the table `t`.
pub record Opened (works : String → Bool) (creates : Bool) (t : Table) : Type 0 where
  pub table : Table
  pub left : (open_db works creates (some t)).1 ≡ some table
  pub same_cells : (d : String) → column d table.rows ≡ column d t.rows
  pub migrated :
      (open_db works creates (some t)).0 ≡ ok tt
      → (c : String) → In c migrations
      → contains table.columns c ≡ true
  pub stable :
      (open_db works creates (some t)).0 ≡ ok tt
      → (works' : String → Bool) (creates' : Bool)
      → (open_db works' creates' (some table)).1 ≡ some table

-- Whichever statements fail, to open the database of an earlier version leaves each cell of each row as
-- it read; when the opening succeeds, each column of the migrations is there, and a later opening,
-- whichever of its own statements fail, leaves the table as it is.
pub open_db-Opened : (works : String → Bool) (creates : Bool) (t : Table) → Opened works creates t
unfolding open_db create_table
open_db-Opened works false t = record {
  table = t;
  left = refl;
  same_cells = λ d. refl;
  migrated = λ h. let z : failed ≡ ok tt = h in cc;
  stable = λ h. let z : failed ≡ ok tt = h in cc;
}
open_db-Opened works true t =
    let all : (apply_migrations works migrations t).0 ≡ ok tt
        → (c : String) → In c migrations
        → contains (apply_migrations works migrations t).1.columns c ≡ true =
      λ h c i. apply_migrations-adds works c migrations t h i in
    record {
      table = (apply_migrations works migrations t).1;
      left = refl;
      same_cells = λ d. apply_migrations-column works d migrations t;
      migrated = all;
      stable = λ h works' creates'. reopened works' creates' _ (all h);
    }
