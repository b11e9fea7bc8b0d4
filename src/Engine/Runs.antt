-- ===== src/Engine/Runs.antt =====
-- Quiet operations: those that take only quiet steps and keep a property of the task. One rule for
-- each way to build an operation.
use hounds_ciai.Prelude.{Bool, true, false, ◌≡◌, refl, sym, ◌∙◌, subst, Option, none, some}
use hounds_ciai.Result.{Err, Result, ok, err}
use hounds_ciai.Store.{Task}
use hounds_ciai.Engine.Monad.{
  World, Engine, Sys, M, Call, Reply, branch, pure, raise, branch, continue, ◌>>=◌, ◌>>◌,
  from_result, caught, or_raise, get_task, get_store, set_task, get_cause, call,
}
use hounds_ciai.Engine.Steps.{Quiet, stay, calls, adjusts, saves, notes, Same, MayCall}

pub Same-refl : (t : Task) → Same t t
Same-refl t = record { id = refl; issue = refl; branch = refl; snapshot = refl; state = refl }

pub Same-trans : {t u v : Task} → Same t u → Same u v → Same t v
Same-trans p q = record {
  id = q.id ∙ p.id;
  issue = q.issue ∙ p.issue;
  branch = q.branch ∙ p.branch;
  snapshot = q.snapshot ∙ p.snapshot;
  state = q.state ∙ p.state;
}

pub Same-sym : {t u : Task} → Same t u → Same u t
Same-sym p = record {
  id = sym p.id;
  issue = sym p.issue;
  branch = sym p.branch;
  snapshot = sym p.snapshot;
  state = sym p.state;
}

-- What a result satisfies: a value its postcondition, an error nothing.
abbrev pub Post : {A : Type 0} → (A → Type 0) → Result A → Type 0
Post Q (ok a) = Q a
Post Q (err x) = Unit

module _ {W : Type 0} (e : Engine) where
  pub Quiet-trans : {s t u : Sys W} → Quiet e s t → Quiet e t u → Quiet e s u
  Quiet-trans p stay = p
  Quiet-trans p (calls c w q m) = calls c w (Quiet-trans p q) m
  Quiet-trans p (adjusts u q m) = adjusts u (Quiet-trans p q) m
  Quiet-trans p (saves d q m) = saves d (Quiet-trans p q) m
  Quiet-trans p (notes d row q r m) = notes d row (Quiet-trans p q) r m

  -- A quiet run never changes the state, nor what the task is known by.
  pub Quiet-Same : {s t : Sys W} → Quiet e s t → Same s.task t.task
  Quiet-Same {s} stay = Same-refl s.task
  Quiet-Same (calls c w q m) = Quiet-Same q
  Quiet-Same (adjusts u q m) = Same-trans (Quiet-Same q) m
  Quiet-Same (saves d q m) = Quiet-Same q
  Quiet-Same (notes d row q r m) = Quiet-Same q

  -- `m`, from a task with `I`, takes quiet steps to a task with `I`, and its value satisfies `Q`.
  pub record Calm {A : Type 0} (I : Task → Type 0) (Q : A → Type 0) (s : Sys W)
      (r : Result A × Sys W) : Type 0 where
    pub path : Quiet e s r.1
    pub kept : I r.1.task
    pub post : Post Q r.0

  pub record Runs {A : Type 0} (I : Task → Type 0) (Q : A → Type 0) (m : M W A) : Type 0 where
    pub at : (s : Sys W) → I s.task → Calm I Q s (m s)

  module _ {A : Type 0} {I : Task → Type 0} {Q : A → Type 0} where
    pub Runs-pure : (a : A) → Q a → Runs I Q (pure a)
    unfolding pure
    Runs-pure a q = record { at = λ s i. record { path = stay; kept = i; post = q } }

    pub Runs-raise : (x : Err) → Runs I Q (raise x)
    unfolding raise
    Runs-raise x = record { at = λ s i. record { path = stay; kept = i; post = tt } }

    pub Runs-from_result : (r : Result A) → Post Q r → Runs I Q (from_result r)
    unfolding from_result
    Runs-from_result r q = record { at = λ s i. record { path = stay; kept = i; post = q } }

    pub Runs-or_raise :
        (o : Option A) (x : Err) → ((a : A) → o ≡ some a → Q a) → Runs I Q (or_raise o x)
    unfolding or_raise
    Runs-or_raise none x q = record { at = λ s i. record { path = stay; kept = i; post = tt } }
    Runs-or_raise (some a) x q = record {
      at = λ s i. record { path = stay; kept = i; post = q a refl };
    }

    pub Runs-if :
        (b : Bool) (m n : M W A)
        → (b ≡ true → Runs I Q m)
        → (b ≡ false → Runs I Q n)
        → Runs I Q (branch b m n)
    unfolding branch
    Runs-if true m n km kn = km refl
    Runs-if false m n km kn = kn refl

    pub Runs-caught : (m : M W A) → Runs I Q m → Runs I (Post Q) (caught m)
    unfolding caught
    Runs-caught m k = record {
      at = λ s i. let c = k.at s i in record { path = c.path; kept = c.kept; post = c.post };
    }

    -- An operation that keeps every single task as it is keeps every property of it.
    pub Runs-frozen : (m : M W A) → ((o : Task) → I o → Runs (λ t. t ≡ o) Q m) → Runs I Q m
    Runs-frozen m k = record {
      at = λ s i.
          let c = (k s.task i).at s refl in
          record { path = c.path; kept = subst I (sym c.kept) i; post = c.post };
    }

  module _ {A B : Type 0} {I : Task → Type 0} {P : A → Type 0} {Q : B → Type 0} where
    Calm-continue :
        (f : A → M W B) (s s' : Sys W) (r : Result A)
        → Quiet e s s'
        → I s'.task
        → Post P r
        → ((a : A) → P a → Runs I Q (f a))
        → Calm I Q s (continue f (r, s'))
    unfolding continue
    Calm-continue f s s' (ok a) p i q k =
        let c = (k a q).at s' i in
        record { path = Quiet-trans p c.path; kept = c.kept; post = c.post }
    Calm-continue f s s' (err x) p i q k = record { path = p; kept = i; post = tt }

    pub Runs-bind :
        (m : M W A) (f : A → M W B)
        → Runs I P m
        → ((a : A) → P a → Runs I Q (f a))
        → Runs I Q (m >>= f)
    unfolding ◌>>=◌
    Runs-bind m f km kf = record {
      at = λ s i. let c = km.at s i in Calm-continue f s (m s).1 (m s).0 c.path c.kept c.post kf;
    }

    pub Runs-then : (m : M W A) (k : M W B) → Runs I P m → Runs I Q k → Runs I Q (m >> k)
    Runs-then m k km kk = Runs-bind m (λ _. k) km (λ _ _. kk)

  module _ {I : Task → Type 0} where
    pub Runs-get_task : Runs I I get_task
    unfolding get_task
    Runs-get_task = record { at = λ s i. record { path = stay; kept = i; post = i } }

    pub Runs-get_store : Runs I (λ _. Unit) get_store
    unfolding get_store
    Runs-get_store = record { at = λ s i. record { path = stay; kept = i; post = tt } }

    pub Runs-set_task :
        (u : Task) → I u → ((t : Task) → I t → Same t u) → Runs I (λ _. Unit) (set_task u)
    unfolding set_task
    Runs-set_task u iu same = record {
      at = λ s i. record { path = adjusts u stay (same s.task i); kept = iu; post = tt };
    }

    pub Runs-call :
        (ext : World W) (c : Call)
        → ((t : Task) → I t → MayCall e t c)
        → Runs I (λ _. Unit) (call ext c)
    unfolding call
    Runs-call ext c may = record {
      at = λ s i. record { path = calls c _ stay (may s.task i); kept = i; post = tt };
    }

    pub Runs-get_cause : (ext : World W) → Runs I (λ _. Unit) (get_cause ext)
    unfolding get_cause
    Runs-get_cause ext = record { at = λ s i. record { path = stay; kept = i; post = tt } }

  -- The same rules for the ways in which a block begins.
  module _ {B : Type 0} {I : Task → Type 0} {Q : B → Type 0} where
    pub Runs-read :
        (f : Task → M W B) → ((t : Task) → I t → Runs I Q (f t)) → Runs I Q (get_task >>= f)
    Runs-read f k = Runs-bind {P = I} get_task f Runs-get_task k

    pub Runs-next :
        {A : Type 0} (m : M W A) (f : A → M W B)
        → Runs I (λ _. Unit {0}) m
        → ((a : A) → Runs I Q (f a))
        → Runs I Q (m >>= f)
    Runs-next m f km k = Runs-bind m f km (λ a _. k a)

    pub Runs-ask :
        (ext : World W) (c : Call) (f : Reply c → M W B)
        → ((t : Task) → I t → MayCall e t c)
        → ((r : Reply c) → Runs I Q (f r))
        → Runs I Q (call ext c >>= f)
    Runs-ask ext c f may k = Runs-next (call ext c) f (Runs-call ext c may) k

    pub Runs-ok :
        {A : Type 0} (r : Result A) (f : A → M W B)
        → ((a : A) → Runs I Q (f a))
        → Runs I Q (from_result r >>= f)
    Runs-ok (ok a) f k = Runs-next (from_result (ok a)) f (Runs-from_result (ok a) tt) k
    Runs-ok (err x) f k = Runs-next (from_result (err x)) f (Runs-from_result (err x) tt) k

    pub Runs-some :
        {A : Type 0} (o : Option A) (x : Err) (f : A → M W B)
        → ((a : A) → o ≡ some a → Runs I Q (f a))
        → Runs I Q (or_raise o x >>= f)
    Runs-some o x f k =
        Runs-bind {P = λ a. o ≡ some a} (or_raise o x) f (Runs-or_raise o x (λ a h. h)) k

    pub Runs-done :
        (m : M W (Unit {0})) (b : B) → Runs I (λ _. Unit {0}) m → Q b → Runs I Q (m >> pure b)
    Runs-done m b km q = Runs-next m (λ _. pure b) km (λ _. Runs-pure b q)
