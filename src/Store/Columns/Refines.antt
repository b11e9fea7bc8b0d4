-- ===== src/Store/Columns/Refines.antt =====
-- The statements of internal/store/store.go over text columns, against the model of the store.
use hounds_ciai.Prelude.{
  ℕ, String, ◌≡◌, refl, sym, ◌∙◌, ap, Option, none, some, List, [], ◌∷◌, ◌==◌, string_eq, nat_eq,
  find?, find?-some, In, map, Bool-cases, inl, inr, ==_true, ==_ne,
}
use hounds_ciai.Result.{Result, ok, err, not_found}
use hounds_ciai.Store.{Task, Store, get_task, set_columns, update_rows}
use hounds_ciai.Store.Columns.{
  Codec, KeepsTime, Keeps, Row, format_time, parse_time_or_zero, row_of, set_row, update_sql,
  scanned, scan_task, select_task,
}

module _ (c : Codec) where
  -- The zero time is stored as the empty text, and read back as it.
  parse-format : (t : ℕ) → KeepsTime c t → parse_time_or_zero c (format_time c t) ≡ t
  unfolding parse_time_or_zero format_time
  parse-format t k = elim (Bool-cases (t == 0)) [
    | inl e ↦ rw e (sym (==_true t 0 e))
    | inr e ↦ rw e (rw (==_ne (c.format t) "" k.visible, k.back) refl)
  ]

  scan_task-row_of : (t : Task) → Keeps c t → scan_task c (row_of c t) ≡ ok t
  unfolding scan_task row_of scanned
  scan_task-row_of t k =
      rw
        (
          scan_task,
          k.counts,
          k.created.back,
          k.updated.back,
          parse-format t.agent_status_at k.observed,
          parse-format t.state_entered_at k.entered,
        )
        refl

  as_row : Option Task → Option Row
  as_row none = none
  as_row (some t) = some (row_of c t)

  find-rows :
      (id : String) (ts : List Task)
      → find? (λ (r : Row). r.id == id) (map (row_of c) ts)
        ≡ as_row (find? (λ (t : Task). t.id == id) ts)
  unfolding row_of as_row
  find-rows id [] = refl
  find-rows id (t ∷ ts) = elim (Bool-cases (t.id == id)) [
    | inl e ↦ rw e refl
    | inr e ↦ rw e (find-rows id ts)
  ]

  select_found :
      (o : Option Task)
      → ((t : Task) → o ≡ some t → Keeps c t)
      → elim (as_row o) as (λ _. Result Task) [ none ↦ err not_found | some r ↦ scan_task c r ]
        ≡ elim o as (λ _. Result Task) [ none ↦ err not_found | some t ↦ ok t ]
  unfolding as_row
  select_found none k = refl
  select_found (some t) k = scan_task-row_of t (k t refl)

  select_tasks :
      (id : String) (s : Store)
      → ((t : Task) → In t s.tasks → Keeps c t)
      → select_task c id (map (row_of c) s.tasks) ≡ get_task id s
  unfolding select_task get_task
  select_tasks id s k =
      ap
        (λ (o : Option Row). elim o as (λ _. Result Task) [
          | none ↦ err not_found
          | some r ↦ scan_task c r
        ])
        (find-rows id s.tasks)
      ∙ select_found (find? (λ (t : Task). t.id == id) s.tasks)
          (λ t e. k t (find?-some (λ (u : Task). u.id == id) s.tasks e).0)

  update_sql-rows :
      (t : Task) (ts : List Task)
      → update_sql c t (map (row_of c) ts) ≡ map (row_of c) (update_rows t ts)
  unfolding update_sql set_row update_rows set_columns row_of
  update_sql-rows t [] = refl
  update_sql-rows t (r ∷ ts) = elim (Bool-cases (r.id == t.id)) [
    | inl e ↦
        rw e (ap (λ (rows : List Row). row_of c (set_columns t r) ∷ rows) (update_sql-rows t ts))
    | inr e ↦ rw e (ap (λ (rows : List Row). row_of c r ∷ rows) (update_sql-rows t ts))
  ]

  -- Where the codecs keep the times and the counts of the stored tasks, the statements over text
  -- columns do what the model of the store does: of rows that were written, a SELECT reads what the
  -- model's lookup reads, and an UPDATE leaves the rows of what the model's update leaves.
  pub columns_refine :
      (s : Store) (t : Task) (id : String)
      → ((u : Task) → In u s.tasks → Keeps c u)
      → (select_task c id (map (row_of c) s.tasks) ≡ get_task id s)
        × (update_sql c t (map (row_of c) s.tasks) ≡ map (row_of c) (update_rows t s.tasks))
  columns_refine s t id k = (select_tasks id s k, update_sql-rows t s.tasks)
