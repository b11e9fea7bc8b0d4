-- ===== src/Config/Validate/Sets.antt =====
-- `sameSet` of internal/config/helpers.go: equality of the sets of members, by counting.
use hounds_ciai.Prelude.{
  suc, ◌≤◌, String, true, false, ◌≡◌, ◌↔◌, ◌⊎◌, refl, sym, List, [], ◌∷◌, ◌==◌, nat_eq, string_eq,
  if◌then◌else◌, length, In, here, there, In-cons, all, all-In, contains, Bool-cases, In-contains,
  contains-In, ==_true, ==_false, inl, inr, arith,
}
use hounds_ciai.Config.Validate.Edges.{distinct, same_set}

-- No member stands twice.
Once : List String → Type 0
Once [] = Unit
Once (x ∷ xs) = (contains xs x ≡ false) × Once xs

distinct-Once : (xs : List String) → Once (distinct xs)
unfolding Once distinct
distinct-Once [] = tt
distinct-Once (x ∷ xs) = elim (Bool-cases (contains (distinct xs) x)) [
  | inl e ↦ rw e (distinct-Once xs)
  | inr e ↦ rw e (e, distinct-Once xs)
]

distinct-In : (y : String) (xs : List String) → In y xs ↔ In y (distinct xs)
unfolding distinct
distinct-In y [] = (λ i. i, λ i. i)
distinct-In y (x ∷ xs) = elim (Bool-cases (contains (distinct xs) x)) [
  | inl e ↦ rw e (
    λ i. elim (In-cons i) [
      | inl p ↦ rw p (contains-In (distinct xs) x e)
      | inr j ↦ (distinct-In y xs).0 j
    ],
    λ i. there ((distinct-In y xs).1 i),
  )
  | inr e ↦ rw e (
    λ i. elim (In-cons i) [ inl p ↦ rw p here | inr j ↦ there ((distinct-In y xs).0 j) ],
    λ i. elim (In-cons i) [ inl p ↦ rw p here | inr j ↦ there ((distinct-In y xs).1 j) ],
  )
]

-- The list without the first `x`.
drop_one : String → List String → List String
drop_one x [] = []
drop_one x (y ∷ ys) = if y == x then ys else y ∷ drop_one x ys

drop_one-length :
    (x : String) (ys : List String) → In x ys → suc (length (drop_one x ys)) ≡ length ys
unfolding drop_one
drop_one-length x [] i = elim i [ ]
drop_one-length x (y ∷ ys) i = elim (Bool-cases (y == x)) [
  | inl e ↦ rw e (omega arith)
  | inr e ↦ rw e (elim (In-cons i) [
    | inl p ↦ absurd (==_false y x e (sym p))
    | inr j ↦ omega (arith, drop_one-length x ys j)
  ])
]

drop_one-In : (x y : String) (ys : List String) → In y ys → (y ≡ x) ⊎ In y (drop_one x ys)
unfolding drop_one
drop_one-In x y [] i = elim i [ ]
drop_one-In x y (z ∷ ys) i = elim (Bool-cases (z == x)) [
  | inl e ↦ rw e (elim (In-cons i) [ inl p ↦ inl (rw (p, ==_true z x e) refl) | inr j ↦ inr j ])
  | inr e ↦ rw e (elim (In-cons i) [
    | inl p ↦ inr (rw p here)
    | inr j ↦ elim (drop_one-In x y ys j) [ inl q ↦ inl q | inr k ↦ inr (there k) ]
  ])
]

-- As many distinct members, all of them in `ys`: then nothing else is in `ys`.
pigeonhole :
    (xs ys : List String)
    → Once xs
    → ((x : String) → In x xs → In x ys)
    → length ys ≤ length xs
    → (y : String) → In y ys
    → In y xs
unfolding Once
pigeonhole [] [] o s l y i = i
pigeonhole [] (z ∷ ys) o s l y i = absurd (omega arith)
pigeonhole (x ∷ xs) ys (fresh, o) s l y i =
    let n = drop_one-length x ys (s x here) in
    elim (drop_one-In x y ys i) [
      | inl p ↦ rw p here
      | inr j ↦ there (
          pigeonhole xs (drop_one x ys) o
            (λ w m. elim (drop_one-In x w ys (s w (there m))) [
              | inl p ↦ absurd (clash x xs fresh (contains-of m p))
              | inr k ↦ k
            ])
            (omega arith) y j)
    ]
  where
    contains-of : {w x : String} {xs : List String} → In w xs → w ≡ x → contains xs x ≡ true
    contains-of m p = rw (sym p) (In-contains _ m)

    clash : (x : String) (xs : List String) → contains xs x ≡ false → ¬ (contains xs x ≡ true)
    clash x xs h k = cc

-- When the test says yes, the two lists have the same members.
pub same_set_lem : (a b : List String) → same_set a b ≡ true → (x : String) → In x a ↔ In x b
unfolding same_set
same_set_lem a b h x =
    let da = distinct a in
    let db = distinct b in
    let n : length da ≡ length db = ground (arith, h) in
    let inside : all (contains db) da ≡ true = ground (arith, h) in
    let forth = λ (y : String) (i : In y da). contains-In db y (all-In (contains db) da inside i) in
    (
      λ i. (distinct-In x b).1 (forth x ((distinct-In x a).0 i)),
      λ i.
          (distinct-In x a).1
            (pigeonhole da db (distinct-Once a) forth (omega arith) x ((distinct-In x b).0 i)),
    )
