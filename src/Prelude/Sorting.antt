-- ===== src/Prelude/Sorting.antt =====
-- `sort.Strings` as insertion sort by the order of texts; only the result is observable.
use Prim.Native.Nat.{Ordering}
use Prim.Native.String.{String, compare}
use mathlib.Core.Bool.{Bool, true, false}
use mathlib.Core.Logic.{inl, inr}
use mathlib.Core.List.{List, [], ◌∷◌}
use hounds_ciai.Prelude.Lists.{In, here, there, In-cons}
use hounds_ciai.Prelude.Tests.{if◌then◌else◌, Bool-cases}

abbrev pub str_leb : String → String → Bool
str_leb a b = elim (compare a b) [ Ordering.gt ↦ false | _ ↦ true ]

abbrev pub insert_sorted : String → List String → List String
insert_sorted x [] = x ∷ []
insert_sorted x (y ∷ ys) = if str_leb x y then x ∷ y ∷ ys else y ∷ insert_sorted x ys

abbrev pub sort_strings : List String → List String
sort_strings [] = []
sort_strings (x ∷ xs) = insert_sorted x (sort_strings xs)

insert_sorted-In_self : (x : String) (xs : List String) → In x (insert_sorted x xs)
insert_sorted-In_self x [] = here
insert_sorted-In_self x (y ∷ ys) = elim (Bool-cases (str_leb x y)) [
  | inl t ↦ rw t here
  | inr f ↦ rw f (there (insert_sorted-In_self x ys))
]

insert_sorted-In : (x y : String) (xs : List String) → In y xs → In y (insert_sorted x xs)
insert_sorted-In x y [] m = elim m [ ]
insert_sorted-In x _ (z ∷ zs) here = elim (Bool-cases (str_leb x z)) [
  | inl t ↦ rw t (there here)
  | inr f ↦ rw f here
]
insert_sorted-In x y (z ∷ zs) (there m) = elim (Bool-cases (str_leb x z)) [
  | inl t ↦ rw t (there (there m))
  | inr f ↦ rw f (there (insert_sorted-In x y zs m))
]

-- Sorting loses nothing.
pub sort_strings-In : {y : String} (xs : List String) → In y xs → In y (sort_strings xs)
sort_strings-In [] m = elim m [ ]
sort_strings-In (x ∷ xs) here = insert_sorted-In_self x (sort_strings xs)
sort_strings-In (x ∷ xs) (there m) = insert_sorted-In x _ (sort_strings xs) (sort_strings-In xs m)

insert_sorted-In_cases :
    (x y : String) (xs : List String) → In y (insert_sorted x xs) → In y (x ∷ xs)
insert_sorted-In_cases x y [] = λ m. m
insert_sorted-In_cases x y (z ∷ zs) = elim (Bool-cases (str_leb x z)) [
  | inl t ↦ rw t (λ m. m)
  | inr f ↦ rw f (λ m. elim (In-cons m) [
    | inl e ↦ rw e (there here)
    | inr i ↦ elim (In-cons (insert_sorted-In_cases x y zs i)) [
      | inl e ↦ rw e here
      | inr j ↦ there (there j)
    ]
  ])
]

-- Sorting adds nothing.
pub In-sort_strings : {y : String} (xs : List String) → In y (sort_strings xs) → In y xs
In-sort_strings [] m = m
In-sort_strings (x ∷ xs) m = elim (In-cons (insert_sorted-In_cases x _ (sort_strings xs) m)) [
  | inl e ↦ rw e here
  | inr i ↦ there (In-sort_strings xs i)
]
