-- ===== src/Engine/Paths.antt =====
-- Operations as paths of quiet steps and moves, and the rules to build them.
use hounds_ciai.Prelude.{ℕ, String, Bool, true, false, ◌≡◌, refl, sym, ap, subst, ◌∷◌, string_eq}
use hounds_ciai.Result.{Result, ok, err}
use hounds_ciai.Store.{Task}
use hounds_ciai.Engine.Steps.{Quiet, Same, Edge}
use hounds_ciai.Engine.Runs.{Post, Same-refl, Runs, Runs-get_task}
use hounds_ciai.Result.{db_failed}
use hounds_ciai.Store.{AuditEntry, append_audit, or_now}
use hounds_ciai.Engine.Monad.{
  World, Engine, Sys, M, Ctx, now, call, pure, raise, branch, continue, get_task, get_store,
  set_task, set_store, caught, statement, statement_ok, ◌>>=◌,
}
use hounds_ciai.Engine.Steps.{stay, calls, Reach, quiet, moves, IsRow}
use hounds_ciai.Engine.Notices.{append_row}
use hounds_ciai.Engine.Transitions.{enter_state}
use hounds_ciai.Engine.Runs.{Quiet-trans}

module _ {W : Type 0} (e : Engine) where
  Reach-Quiet : {s t u : Sys W} → Reach e s t → Quiet e t u → Reach e s u
  Reach-Quiet (quiet p) q = quiet (Quiet-trans e p q)
  Reach-Quiet (moves d row next p r i m l x) q = moves d row next p r i m l (Quiet-trans e x q)

  pub Reach-trans : {s t u : Sys W} → Reach e s t → Reach e t u → Reach e s u
  Reach-trans p (quiet q) = Reach-Quiet p q
  Reach-trans p (moves d row next q r i m l x) = moves d row next (Reach-trans p q) r i m l x

  -- `m`, from a task with `I`, goes along such a path, and its value satisfies `Q`.
  pub record Went {A : Type 0} (Q : A → Type 0) (s : Sys W) (r : Result A × Sys W) : Type 0 where
    pub path : Reach e s r.1
    pub post : Post Q r.0

  pub record Goes {A : Type 0} (I : Task → Type 0) (Q : A → Type 0) (m : M W A) : Type 0 where
    pub at : (s : Sys W) → I s.task → Went Q s (m s)

  module _ {A : Type 0} {I : Task → Type 0} {Q : A → Type 0} where
    pub Goes-Runs : (m : M W A) → Runs e I Q m → Goes I Q m
    Goes-Runs m k = record {
      at = λ s i. let c = k.at s i in record { path = quiet c.path; post = c.post };
    }

    pub Goes-Same : (m : M W A) → ((o : Task) → I o → Goes (Same o) Q m) → Goes I Q m
    Goes-Same m k = record { at = λ s i. (k s.task i).at s (Same-refl s.task) }

    pub Goes-if :
        (b : Bool) (m n : M W A)
        → (b ≡ true → Goes I Q m)
        → (b ≡ false → Goes I Q n)
        → Goes I Q (branch b m n)
    unfolding branch
    Goes-if true m n km kn = km refl
    Goes-if false m n km kn = kn refl

    pub Goes-caught : (m : M W A) → Goes I Q m → Goes I (Post Q) (caught m)
    unfolding caught
    Goes-caught m k = record {
      at = λ s i. let c = k.at s i in record { path = c.path; post = c.post };
    }

  module _ {A B : Type 0} {J : Task → Type 0} {P : A → Type 0} {Q : B → Type 0} where
    Went-continue :
        (f : A → M W B) (s s' : Sys W) (r : Result A)
        → Reach e s s'
        → J s'.task
        → Post P r
        → ((a : A) → P a → Goes J Q (f a))
        → Went Q s (continue f (r, s'))
    unfolding continue
    Went-continue f s s' (ok a) p j q k =
        let c = (k a q).at s' j in record { path = Reach-trans p c.path; post = c.post }
    Went-continue f s s' (err x) p j q k = record { path = p; post = tt }

  module _ {A B : Type 0} {I : Task → Type 0} {P : A → Type 0} {Q : B → Type 0} where
    pub Goes-after :
        (m : M W A) (f : A → M W B)
        → Runs e I P m
        → ((a : A) → P a → Goes I Q (f a))
        → Goes I Q (m >>= f)
    unfolding ◌>>=◌
    Goes-after m f km kf = record {
      at = λ s i.
          let c = km.at s i in
          Went-continue {J = I} f s (m s).1 (m s).0 (quiet c.path) c.kept c.post kf;
    }

    pub Goes-bind :
        (m : M W A) (f : A → M W B)
        → Goes I P m
        → ((a : A) → P a → Goes (λ _. Unit {0}) Q (f a))
        → Goes I Q (m >>= f)
    unfolding ◌>>=◌
    Goes-bind m f km kf = record {
      at = λ s i.
          let c = km.at s i in
          Went-continue {J = λ _. Unit {0}} f s (m s).1 (m s).0 c.path tt c.post kf;
    }

  module _ {B : Type 0} {I : Task → Type 0} {Q : B → Type 0} where
    pub Goes-read :
        (f : Task → M W B) → ((t : Task) → I t → Goes I Q (f t)) → Goes I Q (get_task >>= f)
    Goes-read f k = Goes-after {P = I} get_task f (Runs-get_task e) k

module _ {W : Type 0} (ext : World W) (e : Engine) {B : Type 0} {Q : B → Type 0} (c : Ctx)
    (next : String) where
  -- The audit row and the new state, once the statement is known to succeed or to fail.
  settled :
      (k : M W B) (done : Bool) (s u : Sys W) (n : ℕ) (row : AuditEntry)
      → Quiet e s u
      → IsRow row u.task.id u.task.current_state next
      → Edge e.wf u.task.current_state next
      → Goes e (λ _. Unit {0}) Q k
      → Went e Q s (
          continue
            (λ (x : Unit {0}). enter_state ext e next >>= λ _. k)
            (continue
              (λ (x : Unit {0}). get_store >>= λ d. set_store (append_audit n row d))
              (branch done (pure tt) (raise db_failed) u)))
  unfolding continue branch pure raise ◌>>=◌ get_store set_store get_task set_task enter_state call
      append_audit
  settled k false s u n row p r m g = record { path = quiet p; post = tt }
  settled k true s u n row p r m g =
      let t = (ext.perform now u.world).0 in
      let to = record u.task { current_state = next; state_entered_at = t } in
      let v = record u {
        world = (ext.perform now u.world).1;
        store = append_audit n row u.store;
        task = to;
        trace = now ∷ u.trace;
      } in
      let w = g.at v tt in
      record {
        path =
            Reach-trans e
              (moves (append_audit n row u.store) (record row { ts = or_now row.ts n }) to
                (quiet (calls now (ext.perform now u.world).1 p tt))
                (record { task_id = r.task_id; from_state = r.from_state; to_state = r.to_state })
                (record { id = refl; issue = refl; branch = refl; snapshot = refl; state = refl }) m
                (record { log = refl; tasks = refl }) stay)
              w.path;
        post = w.post;
      }

  -- A row from the task's state to the next, and the task in that state.
  pub Goes-moves :
      (o : Task) (trigger result : String) (k : M W B)
      → Edge e.wf o.current_state next
      → Goes e (λ _. Unit {0}) Q k
      → Goes e
          (λ t. t ≡ o)
          Q
          (append_row ext c o.current_state next trigger result >>= λ _.
            enter_state ext e next >>= λ _. k)
  unfolding append_row get_task call statement_ok ◌>>=◌ continue
  Goes-moves o trigger result k m g = record {
    at = λ s i.
        let w = (ext.perform now s.world).1 in
        settled k _ s _ _ _
          (calls (statement c) (ext.perform (statement c) w).1 (calls now w stay tt) tt)
          (record {
            task_id = refl;
            from_state = ap (λ (t : Task). t.current_state) (sym i);
            to_state = refl;
          })
          (subst (λ (t : Task). Edge e.wf t.current_state next) (sym i) m) g;
  }
