-- ===== src/Doctor/Rules.antt =====
-- What a check asks and reports: rules, one for each way to build a check of internal/doctor.
use hounds_ciai.Prelude.{
  String, Bool, true, false, ◌≡◌, ◌≢◌, refl, In, In-cons, inl, inr, ◌⊎◌, string_eq, ◌==◌, ==_false,
}
use hounds_ciai.Doctor.Outside.{
  Status, pass, warn, fail, skip, CheckResult, passed, warned, failed, skipped, Probe, Answer,
  error, given, Host, Session, D, pure, ◌>>=◌, ask, choose, either,
}

-- A warning or a failure comes with a fix, and nothing else does.
abbrev pub FixFor : Status → String → Type 0
FixFor pass fix = fix ≡ ""
FixFor skip fix = fix ≡ ""
FixFor warn fix = fix ≢ ""
FixFor fail fix = fix ≢ ""

-- A report of the check with the name.
pub record Reports (name : String) (r : CheckResult) : Type 0 where
  pub named : r.name ≡ name
  pub fixed : FixFor r.status r.fix

module _ (name detail : String) where
  pub passed-Reports : Reports name (passed name detail)
  passed-Reports = record { named = refl; fixed = refl }

  pub skipped-Reports : Reports name (skipped name detail)
  skipped-Reports = record { named = refl; fixed = refl }

  pub warned-Reports : (fix : String) → (fix == "") ≡ false → Reports name (warned name detail fix)
  warned-Reports fix h = record { named = refl; fixed = ==_false fix "" h }

  pub failed-Reports : (fix : String) → (fix == "") ≡ false → Reports name (failed name detail fix)
  failed-Reports fix h = record { named = refl; fixed = ==_false fix "" h }

module _ {W : Type 0} (host : Host W) (P : Probe → Type 0) where
  -- The method asks only what `P` allows, and answers what `Q` says.
  pub record Meets {A : Type 0} (Q : A → Type 0) (m : D W A) : Type 0 where
    pub asks : (s : Session W) (p : Probe) → In p (m s).1.trace → In p s.trace ⊎ P p
    pub answers : (s : Session W) → Q (m s).0

  asked : (p : Probe) → P p → Meets (λ (r : Answer String). Unit {0}) (ask host p)
  unfolding ask
  asked p h = record {
    asks = λ s q i. elim (In-cons i) [ inl e ↦ inr (rw e h) | inr j ↦ inl j ];
    answers = λ s. tt;
  }

  module _ {A : Type 0} {Q : A → Type 0} where
    pub Meets-pure : (a : A) → Q a → Meets Q (pure a)
    unfolding pure
    Meets-pure a q = record { asks = λ s p i. inl i; answers = λ s. q }

    pub Meets-choose :
        (b : Bool) {m n : D W A}
        → (b ≡ true → Meets Q m)
        → (b ≡ false → Meets Q n)
        → Meets Q (choose b m n)
    unfolding choose
    Meets-choose true yes_ no_ = yes_ refl
    Meets-choose false yes_ no_ = no_ refl

    pub Meets-bind :
        {B : Type 0} (R : B → Type 0) (m : D W B) (f : B → D W A)
        → Meets R m
        → ((b : B) → R b → Meets Q (f b))
        → Meets Q (m >>= f)
    unfolding ◌>>=◌
    Meets-bind R m f first next = record {
      asks = λ s p i. elim ((next (m s).0 (first.answers s)).asks (m s).1 p i) [
        | inl j ↦ first.asks s p j
        | inr h ↦ inr h
      ];
      answers = λ s. (next (m s).0 (first.answers s)).answers (m s).1;
    }

    Meets-either :
        (f g : String → D W A)
        → ((why : String) → Meets Q (f why))
        → ((out : String) → Meets Q (g out))
        → (r : Answer String) → Meets Q (either f g r)
    unfolding either
    Meets-either f g no_ yes_ (error why) = no_ why
    Meets-either f g no_ yes_ (given out) = yes_ out

    pub Meets-ask :
        (p : Probe) {f g : String → D W A}
        → P p
        → ((why : String) → Meets Q (f why))
        → ((out : String) → Meets Q (g out))
        → Meets Q (ask host p >>= either f g)
    Meets-ask p {f} {g} h no_ yes_ =
        Meets-bind _ (ask host p) (either f g) (asked p h) (λ r _. Meets-either f g no_ yes_ r)

    -- A last call whose answer is dropped.
    pub Meets-last : (p : Probe) (a : A) → P p → Q a → Meets Q (ask host p >>= λ _. pure a)
    Meets-last p a h q = Meets-bind _ (ask host p) (λ _. pure a) (asked p h) (λ r _. Meets-pure a q)

pub Meets-widen :
    {W : Type 0} (host : Host W) {P R : Probe → Type 0} {A : Type 0} {Q : A → Type 0} {m : D W A}
    → ((p : Probe) → P p → R p)
    → Meets host P Q m
    → Meets host R Q m
Meets-widen host wider h = record {
  asks = λ s p i. elim (h.asks s p i) [ inl j ↦ inl j | inr q ↦ inr (wider p q) ];
  answers = h.answers;
}
