-- ===== src/Exec/Herdr/Tracing.antt =====
-- Which commands a method of internal/exec/herdr.go runs: rules, one for each way to build a method.
use hounds_ciai.Prelude.{
  ℕ, Bool, true, false, ◌≡◌, refl, Option, none, some, In, In-cons, List, ◌∷◌, inl, inr, sym, ◌∙◌,
  ap, ◌⊎◌, String, Option-cases,
}
use hounds_ciai.Exec.Herdr.Shell.{
  Command, pause, Herdr, Host, Failure, Answer, good, bad, Session, H, done_, give_up, attempt,
  argv, choose, issue, wait_for, read_clock, decoded, proceed, ◌>>=◌, ◌>>◌,
}
use hounds_ciai.Exec.Herdr.Readings.{finally}

added :
    (P : Command → Type 0) (c : Command)
    → P c
    → (cs : List Command) → ((d : Command) → In d cs → P d)
    → (d : Command) → In d (c ∷ cs)
    → P d
added P c p cs h d i = elim (In-cons i) [ inl e ↦ rw e p | inr j ↦ h d j ]

module _ {W : Type 0} (P : Command → Type 0) where
  -- Every command of the trace so far.
  abbrev pub Within : Session W → Type 0
  Within s = (c : Command) → In c s.trace → P c

  -- A method that runs such commands only.
  abbrev pub Only : {A : Type 0} → H W A → Type 0
  Only m = (s : Session W) → Within s → Within (m s).1

  pub Only-done : {A : Type 0} (a : A) → Only (done_ a)
  unfolding done_
  Only-done a s h = h

  pub Only-give_up : (A : Type 0) (f : Failure) → Only (give_up {A = A} f)
  unfolding give_up
  Only-give_up A f s h = h

  proceeds :
      {A B : Type 0} (f : A → H W B)
      → ((a : A) → Only (f a))
      → (r : Answer A) (s : Session W) → Within s
      → Within (proceed f (r, s)).1
  unfolding proceed
  proceeds f k (good a) s h = k a s h
  proceeds f k (bad e) s h = h

  pub Only-bind :
      {A B : Type 0} (m : H W A) (f : A → H W B) → Only m → ((a : A) → Only (f a)) → Only (m >>= f)
  unfolding ◌>>=◌
  Only-bind m f first then_ s h = proceeds f then_ (m s).0 (m s).1 (first s h)

  pub Only-then : {A B : Type 0} (m : H W A) (n : H W B) → Only m → Only n → Only (m >> n)
  unfolding ◌>>◌
  Only-then m n first last = Only-bind m (λ _. n) first (λ _. last)

  pub Only-attempt : {A : Type 0} (m : H W A) → Only m → Only (attempt m)
  unfolding attempt
  Only-attempt m h = h

  pub Only-choose :
      {A : Type 0} (b : Bool) (m n : H W A)
      → (b ≡ true → Only m)
      → (b ≡ false → Only n)
      → Only (choose b m n)
  unfolding choose
  Only-choose true m n yes_ no_ = yes_ refl
  Only-choose false m n yes_ no_ = no_ refl

  pub Only-decoded : {A : Type 0} (o : Option A) → Only (decoded o)
  unfolding decoded done_ give_up
  Only-decoded none s h = h
  Only-decoded (some a) s h = h

  pub Only-issue : (host : Host W) (h : Herdr) (c : Command) → P c → Only (issue host h c)
  unfolding issue
  Only-issue host h c p s i = added P c p s.trace i

  pub Only-wait_for : (host : Host W) (d : ℕ) → P (pause d) → Only (wait_for host d)
  unfolding wait_for
  Only-wait_for host d p s i = added P (pause d) p s.trace i

  pub Only-read_clock : (host : Host W) → Only (read_clock host)
  unfolding read_clock
  Only-read_clock host s h = h

  pub Only-finally :
      {A : Type 0} (m : H W A) (last : H W (Unit {0})) → Only m → Only last → Only (finally m last)
  unfolding finally
  Only-finally m last first then_ s h = then_ (m s).1 (first s h)

module _ {W A : Type 0} where
  Answer-cases :
      (r : Answer A × Session W)
      → ((a : A) × (s : Session W) × (r ≡ (good a, s)))
        ⊎ ((f : Failure) × (s : Session W) × (r ≡ (bad f, s)))
  Answer-cases (good a, s) = inl (a, s, refl)
  Answer-cases (bad f, s) = inr (f, s, refl)

  pub bad-not :
      (r : Answer A × Session W) (f : Failure) (s s' : Session W) (a : A)
      → r ≡ (bad f, s)
      → ¬ (r ≡ (good a, s'))
  bad-not r f s s' a p q = cc

  -- A method that succeeded by `attempt` succeeded.
  pub attempt-good :
      (m : H W A) (s s' : Session W) (a : A)
      → attempt m s ≡ (good (good a), s')
      → m s ≡ (good a, s')
  unfolding attempt
  attempt-good m s s' a e = cc

module _ {W A B : Type 0} where
  -- What succeeded by a bind succeeded in both its parts.
  pub bind-good :
      (m : H W A) (f : A → H W B) (s s' : Session W) (b : B)
      → (m >>= f) s ≡ (good b, s')
      → (a : A) × (mid : Session W) × (m s ≡ (good a, mid)) × (f a mid ≡ (good b, s'))
  unfolding ◌>>=◌ proceed
  bind-good m f s s' b e = elim (Answer-cases (m s)) [
    | inl (a, mid, q) ↦ (a, mid, q, sym (ap (proceed f) q) ∙ e)
    | inr (x, mid, q) ↦ absurd (bad-not _ x mid s' b (ap (proceed f) q) e)
  ]

module _ {W : Type 0} where
  pub issue-good :
      (host : Host W) (h : Herdr) (c : Command) (s s' : Session W) (out : String)
      → issue host h c s ≡ (good out, s')
      → (host.run c (argv h c) s.world).0 ≡ some out
  unfolding issue
  issue-good host h c s s' out = elim (Option-cases (host.run c (argv h c) s.world).0) [
    | inl e ↦ rw e (λ q. cc)
    | inr (text, e) ↦ rw e (λ q. cc)
  ]

  pub decoded-good :
      {A : Type 0} (o : Option A) (s s' : Session W) (a : A)
      → decoded o s ≡ (good a, s')
      → o ≡ some a
  unfolding decoded done_ give_up
  decoded-good none s s' a e = cc
  decoded-good (some b) s s' a e = cc

  pub done_good : {A : Type 0} (a b : A) (s s' : Session W) → done_ a s ≡ (good b, s') → a ≡ b
  unfolding done_
  done_good a b s s' e = cc

  pub gave_up :
      {A B : Type 0} (f : Failure) (a : A) (s s' : Session W) → give_up f s ≡ (good a, s') → B
  unfolding give_up
  gave_up f a s s' e = absurd (bad-not _ f s s' a refl e)

  module _ (P : Command → Type 0) {A B : Type 0} (m : H W A) (f : A → H W B) where
    proceeds_from :
        (s : Session W)
        → ((a : A) (s' : Session W) → m s ≡ (good a, s') → Only P (f a))
        → (r : Answer A) (s' : Session W) → m s ≡ (r, s')
        → Within P s'
        → Within P (proceed f (r, s')).1
    unfolding proceed
    proceeds_from s k (good a) s' e h = k a s' e s' h
    proceeds_from s k (bad x) s' e h = h

    -- The rest of a bind knows what its first part gave.
    pub Only-bind_good :
        Only P m
        → ((a : A) (s s' : Session W) → m s ≡ (good a, s') → Only P (f a))
        → Only P (m >>= f)
    unfolding ◌>>=◌
    Only-bind_good first then_ s h =
        proceeds_from s (λ a s'. then_ a s s') (m s).0 (m s).1 refl (first s h)
