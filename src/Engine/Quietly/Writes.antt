-- ===== src/Engine/Quietly/Writes.antt =====
-- The writes that change no state, and the notices.
use hounds_ciai.Prelude.{ℕ, String, ◌≡◌, refl, sym, ◌∙◌, subst, string_eq}
use hounds_ciai.Result.{Result, ok, err}
use hounds_ciai.Store.{Task, AuditEntry, Store, update_task, append_audit, or_now}
use hounds_ciai.Engine.Monad.{
  World, Engine, Sys, M, Ctx, attached, Notice, ◌>>=◌, ◌>>◌, from_result, get_store, set_task,
  set_store, now, statement, statement_ok, continue, notify, read_pane,
}
use hounds_ciai.Engine.Notices.{
  alert_pane_lines, send, append_row, alert, notify_terminal_alert, read_recent, read_tail,
}
use hounds_ciai.Engine.Transitions.{persist, record_agent_status}
use hounds_ciai.Engine.Steps.{stay, adjusts, saves, notes, Same, IsRow}
use hounds_ciai.Engine.Runs.{
  Quiet-trans, Same-trans, Same-sym, Calm, Runs, Runs-pure, Runs-raise, Runs-if, Runs-caught,
  Runs-bind, Runs-then, Runs-get_store, Runs-set_task, Runs-call, Runs-read, Runs-next, Runs-ask,
}

module _ {W : Type 0} (ext : World W) (e : Engine) where
  module _ {I : Task → Type 0} where
    pub Runs-statement_ok : (c : Ctx) → Runs {W = W} e I (λ _. Unit {0}) (statement_ok ext c)
    unfolding statement_ok
    Runs-statement_ok c =
        Runs-bind e _ _ (Runs-call e ext (statement c) (λ _ _. tt))
          λ done _. Runs-if e done _ _ (λ _. Runs-pure e tt tt) (λ _. Runs-raise e _)

    pub Runs-send : (n : Notice) → Runs {W = W} e I (λ _. Unit {0}) (send ext n)
    unfolding send
    Runs-send n = Runs-then e _ _ (Runs-call e ext (notify n) (λ _ _. tt)) (Runs-pure e tt tt)

    read_recent_quiet :
        (c : Ctx) (task : Task) → Runs {W = W} e I (λ _. Unit {0}) (read_recent ext c task)
    unfolding read_recent
    read_recent_quiet c task =
        Runs-bind e _ _ (Runs-caught e _ (Runs-statement_ok c))
          λ r _. Runs-next e _ _ (Runs-get_store e) λ d. Runs-pure e _ tt

    read_tail_quiet : (task : Task) → Runs {W = W} e I (λ _. Unit {0}) (read_tail ext task)
    unfolding read_tail
    read_tail_quiet task =
        Runs-if e _ _ _ (λ _. Runs-pure e _ tt)
          λ _.
            Runs-ask e ext (read_pane task.pane_id alert_pane_lines) _ (λ _ _. tt)
              λ r. Runs-pure e _ tt

    pub Runs-notify_terminal_alert :
        (c : Ctx) → Runs {W = W} e I (λ _. Unit {0}) (notify_terminal_alert ext e c)
    unfolding notify_terminal_alert
    Runs-notify_terminal_alert c = Runs-read e _ λ task _.
        Runs-if e _ _ _ (λ _. Runs-pure e tt tt)
          λ _.
            Runs-next e _ _ (read_recent_quiet c task)
              λ recent. Runs-next e _ _ (read_tail_quiet task) λ tail. Runs-send _

  -- After the task is set, the rest may rely on it.
  Runs-set_then :
      {A : Type 0} {I : Task → Type 0} {Q : A → Type 0} (u : Task) (k : M W A)
      → I u
      → ((t : Task) → I t → Same t u)
      → Runs e (λ t. t ≡ u) Q k
      → Runs e I Q (set_task u >> k)
  unfolding set_task ◌>>=◌ continue
  Runs-set_then {I = I} u k iu same rk = record {
    at = λ s i.
        let c = rk.at (record s { task = u }) refl in
        record {
          path = Quiet-trans e (adjusts u stay (same s.task i)) c.path;
          kept = subst I (sym c.kept) iu;
          post = c.post;
        };
  }

  -- The row that is written is the task's own.
  saved :
      (u : Task) (s : Sys W)
      → s.task ≡ u
      → (r : Result Store) → update_task u s.store ≡ r
      → Calm e (λ t. t ≡ u) (λ _. Unit) s ((from_result r >>= set_store) s)
  unfolding from_result ◌>>=◌ set_store continue
  saved u s i (ok d) h = record {
    path = saves d stay (subst (λ t. update_task t s.store ≡ ok d) (sym i) h);
    kept = i;
    post = tt;
  }
  saved u s i (err x) h = record { path = stay; kept = i; post = tt }

  Runs-save :
      (u : Task)
      → Runs {W = W} e
          (λ t. t ≡ u)
          (λ _. Unit {0})
          (get_store >>= λ d. from_result (update_task u d) >>= λ d'. set_store d')
  unfolding get_store ◌>>=◌ continue
  Runs-save u = record { at = λ s i. saved u s i (update_task u s.store) refl }

  Runs-append :
      {I : Task → Type 0} (n : ℕ) (row : AuditEntry)
      → ((t : Task) → I t → IsRow row t.id t.current_state t.current_state)
      → Runs {W = W} e I (λ _. Unit {0}) (get_store >>= λ d. set_store (append_audit n row d))
  unfolding get_store set_store ◌>>=◌ continue append_audit
  Runs-append n row h = record {
    at = λ s i.
        let r = h s.task i in
        record {
          path =
              notes (append_audit n row s.store) (record row { ts = or_now row.ts n }) stay
                (record { task_id = r.task_id; from_state = r.from_state; to_state = r.to_state })
                (record { log = refl; tasks = refl });
          kept = i;
          post = tt;
        };
  }

  module _ (o : Task) where
    pub Runs-persist : (c : Ctx) → Runs {W = W} e (Same o) (λ _. Unit {0}) (persist ext c)
    unfolding persist
    Runs-persist c = Runs-read e _ λ task h.
        Runs-ask e ext now _ (λ _ _. tt)
          λ t.
            let stamped : Same task (record task { updated_at = t }) = record {
              id = refl;
              issue = refl;
              branch = refl;
              snapshot = refl;
              state = refl;
            } in
            Runs-set_then _ _ (Same-trans h stamped)
              (λ u i. Same-trans (Same-sym i) (Same-trans h stamped))
              (Runs-next e _ _ (Runs-statement_ok c) λ _. Runs-save _)

    -- An audit row from the state to itself.
    pub Runs-note :
        (c : Ctx) (trigger result : String) (task : Task)
        → Same o task
        → Runs {W = W} e
            (Same o)
            (λ _. Unit {0})
            (append_row ext c task.current_state task.current_state trigger result)
    unfolding append_row
    Runs-note c trigger result task h = Runs-read e _ λ t i.
        Runs-ask e ext now _ (λ _ _. tt)
          λ n. Runs-next e _ _ (Runs-statement_ok c) λ _. Runs-append n _ λ u j. record {
            task_id = i.id ∙ sym j.id;
            from_state = h.state ∙ sym j.state;
            to_state = h.state ∙ sym j.state;
          }

    pub Runs-alert : (msg : String) → Runs {W = W} e (Same o) (λ _. Unit {0}) (alert ext msg)
    unfolding alert
    Runs-alert msg = Runs-read e _ λ task h.
        Runs-bind e _ _ (Runs-caught e _ (Runs-note attached _ _ task h)) λ _ _. Runs-send _

    pub Runs-record_agent_status :
        (status : String) → Runs {W = W} e (Same o) (λ _. Unit {0}) (record_agent_status ext status)
    unfolding record_agent_status
    Runs-record_agent_status status = Runs-read e _ λ task h.
        Runs-if e _ _ _ (λ _. Runs-pure e tt tt)
          λ _.
            Runs-ask e ext now _ (λ _ _. tt)
              λ t.
                let changed : Same task
                    (record task { agent_status = status; agent_status_at = t }) =
                  record {
                    id = refl;
                    issue = refl;
                    branch = refl;
                    snapshot = refl;
                    state = refl;
                  } in
                Runs-next e _ _
                  (Runs-set_task e _ (Same-trans h changed)
                    (λ u i. Same-trans (Same-sym i) (Same-trans h changed)))
                  λ _.
                    Runs-bind e _ _ (Runs-caught e _ (Runs-persist attached))
                      λ _ _. Runs-pure e tt tt
