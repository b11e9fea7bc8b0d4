-- ===== src/Prelude/Maps.antt =====
-- A Go map as an association list. The first entry of a key is the one that counts; `insert` never
-- makes a second. Iteration order is the list's, so code that must not depend on it sorts the keys.

use mathlib.Core.Path.{◌≡◌, refl}
use mathlib.Core.Logic.{inl, inr}
use native.Mathlib.Omega.{arith}
use hounds_ciai.Prelude.Lists.{In, here, there}
use mathlib.Core.Bool.{Bool, true, false}
use Prim.Native.String.{String}
use text.Mathlib.TextEquality.{eq_iff}
use mathlib.Core.Option.{Option, none, some}
use mathlib.Core.List.{List, [], ◌∷◌}
use hounds_ciai.Prelude.Tests.{
  Comparable, ◌==◌, if◌then◌else◌, Bool-cases, ==_true, ==_self, string_eq,
}

if-same : (b x : Bool) → (if b then true else x) ≡ (if b then true else (if b then true else x))
if-same true x = refl
if-same false x = refl

module _ {ℓ κ} {K : Type ℓ} {V : Type κ} ⦃c : Comparable K⦄ where
  abbrev pub lookup : K → List (K × V) → Option V
  lookup k [] = none
  lookup k ((j, v) ∷ m) = if j == k then some v else lookup k m

  abbrev pub has_key : K → List (K × V) → Bool
  has_key k [] = false
  has_key k ((j, v) ∷ m) = if j == k then true else has_key k m

  abbrev pub insert : K → V → List (K × V) → List (K × V)
  insert k v [] = (k, v) ∷ []
  insert k v ((j, w) ∷ m) = if j == k then (k, v) ∷ m else (j, w) ∷ insert k v m

  abbrev pub delete : K → List (K × V) → List (K × V)
  delete k [] = []
  delete k ((j, v) ∷ m) = let rest = delete k m in if j == k then rest else (j, v) ∷ rest

  abbrev pub keys : List (K × V) → List K
  keys [] = []
  keys ((k, v) ∷ m) = k ∷ keys m

  -- `m[k]` with the zero value for a missing key.
  abbrev pub lookup_or : K → V → List (K × V) → V
  lookup_or k d [] = d
  lookup_or k d ((j, v) ∷ m) = if j == k then v else lookup_or k d m

  pub has_key-In : (k : K) (m : List (K × V)) → has_key k m ≡ true → In k (keys m)
  has_key-In k [] h = cc
  has_key-In k ((j, v) ∷ m) h = elim (Bool-cases (j == k)) [
    | inl e ↦ rw (==_true j k e) here
    | inr e ↦ there (has_key-In k m (ground (arith, h, e)))
  ]

  pub In-has_key : {k : K} (m : List (K × V)) → In k (keys m) → has_key k m ≡ true
  In-has_key [] i = elim i [ ]
  In-has_key ((j, v) ∷ m) here = rw (==_self j)
  In-has_key {k} ((j, v) ∷ m) (there i) = ground (arith, In-has_key m i)

  pub has_key-lookup : (k : K) (m : List (K × V)) → has_key k m ≡ false → lookup k m ≡ none
  has_key-lookup k [] h = refl
  has_key-lookup k ((j, v) ∷ m) h = ground (arith, has_key-lookup k m)

  pub has_key-lookup_ne : (k : K) (m : List (K × V)) → has_key k m ≡ true → ¬ (lookup k m ≡ none)
  has_key-lookup_ne k [] h e = cc
  has_key-lookup_ne k ((j, v) ∷ m) h e = elim (Bool-cases (j == k)) [
    | inl t ↦ let p : some v ≡ none = ground (arith, e, t) in cc
    | inr f ↦ has_key-lookup_ne k m (ground (arith, h, f)) (ground (arith, e, f))
  ]

  pub has_key-insert :
      (n k : K) (v : V) (m : List (K × V))
      → has_key n (insert k v m) ≡ (if k == n then true else has_key n m)
  has_key-insert n k v [] = refl
  has_key-insert n k v ((j, w) ∷ m) = elim (Bool-cases (j == k)) [
    | inl e ↦ rw (==_true j k e) (rw (==_self k) (if-same (k == n) (has_key n m)))
    | inr e ↦ rw e (ground (arith, has_key-insert n k v m))
  ]

  pub lookup_or-missing :
      (k : K) (d : V) (m : List (K × V)) → has_key k m ≡ false → lookup_or k d m ≡ d
  lookup_or-missing k d [] h = refl
  lookup_or-missing k d ((j, v) ∷ m) h = ground (arith, lookup_or-missing k d m)

pub lookup-insert {κ} :
    {V : Type κ} (p k : String) (v : V) (m : List (String × V))
    → lookup p (insert k v m) ≡ (if k == p then some v else lookup p m)
lookup-insert p k v [] = refl
lookup-insert p k v ((j, w) ∷ m) =
    ground (arith, eq_iff j k, eq_iff j p, eq_iff k p, lookup-insert p k v m)
