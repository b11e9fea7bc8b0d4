-- ===== src/Prelude/Lists.antt =====
-- Lists measured by native numbers, membership tests, and predicates over all members.
use Prim.Native.Nat.{ℕ, zero, suc, ◌+◌}
use mathlib.Core.Path.{◌≡◌, refl, sym}
use mathlib.Core.Logic.{◌⊎◌, inl, inr}
use mathlib.Core.Bool.{Bool, true, false, ◌&&◌, ◌||◌}
use mathlib.Core.Option.{Option, none, some}
use mathlib.Core.List.{List, [], ◌∷◌, ◌++◌, map}
use native.Mathlib.Omega.{arith}
use hounds_ciai.Prelude.Tests.{Comparable, ◌==◌, if◌then◌else◌, Bool-cases, ==_self, ==_true}

module _ {ℓ} {A : Type ℓ} where
  abbrev pub length : List A → ℕ
  length [] = 0
  length (x ∷ xs) = suc (length xs)

  abbrev pub take : ℕ → List A → List A
  take zero xs = []
  take (suc n) [] = []
  take (suc n) (x ∷ xs) = x ∷ take n xs

  -- The test `len(xs) > 0`.
  abbrev pub is_nonempty : List A → Bool
  is_nonempty [] = false
  is_nonempty (x ∷ xs) = true

  abbrev pub all : (A → Bool) → List A → Bool
  all p [] = true
  all p (x ∷ xs) = p x && all p xs

  abbrev pub any : (A → Bool) → List A → Bool
  any p [] = false
  any p (x ∷ xs) = p x || any p xs

  -- The first member that passes the test.
  abbrev pub find? : (A → Bool) → List A → Option A
  find? p [] = none
  find? p (x ∷ xs) = if p x then some x else find? p xs

  abbrev pub filter : (A → Bool) → List A → List A
  filter p [] = []
  filter p (x ∷ xs) = let rest = filter p xs in if p x then x ∷ rest else rest

  abbrev pub get_or {κ} : {B : Type κ} → Option A → B → (A → B) → B
  get_or none b f = b
  get_or (some a) b f = f a

  -- Whatever `f` gives for the members, in order.
  abbrev pub gather {κ} : {B : Type κ} → (A → List B) → List A → List B
  gather f [] = []
  gather f (x ∷ xs) = f x ++ gather f xs

  -- The one-element list of `x` if the test says so.
  abbrev pub note : Bool → A → List A
  note true x = x ∷ []
  note false x = []

  pub note-nil : (b : Bool) (x : A) → note b x ≡ [] → b ≡ false
  note-nil true x h = cc
  note-nil false x h = refl

  pub length-append : (xs ys : List A) → length (xs ++ ys) ≡ length xs + length ys
  length-append [] ys = omega arith
  length-append (x ∷ xs) ys = omega (arith, length-append xs ys)

  -- A list is empty iff its concatenation with no errors is.
  pub append-eq-nil : (xs ys : List A) → xs ++ ys ≡ [] → (xs ≡ []) × (ys ≡ [])
  append-eq-nil [] ys h = (refl, h)
  append-eq-nil (x ∷ xs) ys h = cc

-- Membership as data, which proofs match on.
pub data In {ℓ} {A : Type ℓ} (a : A) : List A → Type ℓ where
  here : {xs : List A} → In a (a ∷ xs)
  there : {x : A} {xs : List A} → In a xs → In a (x ∷ xs)

module _ {ℓ} {A : Type ℓ} where
  pub In-append_left : {a : A} {xs : List A} (ys : List A) → In a xs → In a (xs ++ ys)
  In-append_left ys here = here
  In-append_left ys (there m) = there (In-append_left ys m)

  pub In-append_right : {a : A} (xs : List A) {ys : List A} → In a ys → In a (xs ++ ys)
  In-append_right [] m = m
  In-append_right (x ∷ xs) m = there (In-append_right xs m)

  pub In-cons : {a x : A} {xs : List A} → In a (x ∷ xs) → (a ≡ x) ⊎ In a xs
  In-cons here = inl refl
  In-cons (there m) = inr m

  pub In-append_cases : {a : A} (xs ys : List A) → In a (xs ++ ys) → In a xs ⊎ In a ys
  In-append_cases [] ys m = inr m
  In-append_cases (x ∷ xs) ys here = inl here
  In-append_cases (x ∷ xs) ys (there m) = elim (In-append_cases xs ys m) [
    | inl l ↦ inl (there l)
    | inr r ↦ inr r
  ]

  pub In-note : (b : Bool) (x : A) {a : A} → In a (note b x) → (b ≡ true) × (a ≡ x)
  In-note true x m = elim (In-cons m) [ inl e ↦ (refl, e) | inr i ↦ elim i [ ] ]
  In-note false x m = elim m [ ]

  -- Where nothing was gathered, no member gave anything.
  pub gather-nil {κ} :
      {B : Type κ} (f : A → List B) {a : A} (xs : List A) → gather f xs ≡ [] → In a xs → f a ≡ []
  gather-nil f [] h m = elim m [ ]
  gather-nil f (x ∷ xs) h here = (append-eq-nil (f x) (gather f xs) h).0
  gather-nil f (x ∷ xs) h (there m) = gather-nil f xs (append-eq-nil (f x) (gather f xs) h).1 m

  pub In-map {κ} : {B : Type κ} (f : A → B) {a : A} {xs : List A} → In a xs → In (f a) (map f xs)
  In-map f here = here
  In-map f (there m) = there (In-map f m)

  pub all-In : (p : A → Bool) {a : A} (xs : List A) → all p xs ≡ true → In a xs → p a ≡ true
  all-In p [] h m = elim m [ ]
  all-In p (x ∷ xs) h here = ground arith
  all-In p (x ∷ xs) h (there m) = all-In p xs (ground arith) m

  -- What `find?` returns is a member that passes.
  pub find?-some :
      (p : A → Bool) (xs : List A) {a : A} → find? p xs ≡ some a → In a xs × (p a ≡ true)
  find?-some p [] h = cc
  find?-some p (x ∷ xs) {a} h = elim (Bool-cases (p x)) [
    | inl e ↦ let eq : x ≡ a = ground arith in (rw (sym eq) here, rw (sym eq) e)
    | inr e ↦ let r = find?-some p xs {a = a} (ground arith) in (there r.0, r.1)
  ]

pub In-gather {ℓ κ} :
    {A : Type ℓ} {B : Type κ} (f : A → List B) (xs : List A) {b : B}
    → In b (gather f xs)
    → (a : A) × In a xs × In b (f a)
In-gather f [] m = elim m [ ]
In-gather f (x ∷ xs) m = elim (In-append_cases (f x) (gather f xs) m) [
  | inl i ↦ (x, here, i)
  | inr i ↦ let (a, j, k) = In-gather f xs i in (a, there j, k)
]

-- `contains` of config/helpers.go and engine/decision.go, at any type with an equality test.
module _ {ℓ} {A : Type ℓ} ⦃c : Comparable A⦄ where
  abbrev pub contains : List A → A → Bool
  contains [] x = false
  contains (v ∷ s) x = if v == x then true else contains s x

  pub contains-In : (s : List A) (x : A) → contains s x ≡ true → In x s
  contains-In [] x h = cc
  contains-In (v ∷ s) x h = elim (Bool-cases (v == x)) [
    | inl t ↦ rw (==_true v x t) here
    | inr f ↦ there (contains-In s x (ground arith))
  ]

  pub In-contains : {s : List A} (x : A) → In x s → contains s x ≡ true
  In-contains {s = []} x m = elim m [ ]
  In-contains {s = v ∷ s} x here = rw (==_self v)
  In-contains {s = v ∷ s} x (there m) = ground (arith, In-contains {s = s} x m)
