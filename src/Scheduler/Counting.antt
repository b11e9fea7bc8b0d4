-- ===== src/Scheduler/Counting.antt =====
-- How often an issue is in a list, and what a change of the in-flight set does to a key.
use hounds_ciai.Prelude.{
  ℕ, suc, ◌+◌, true, false, ◌≡◌, refl, List, [], ◌∷◌, ◌++◌, ◌==◌, nat_eq, if◌then◌else◌, In, here,
  there, arith,
}
use hounds_ciai.Prelude.Maps.{has_key, insert, delete}
use hounds_ciai.Scheduler.{Handle, Inflight, remove_one}

unfoldable pub count : ℕ → List ℕ → ℕ
count i [] = 0
count i (x ∷ xs) = let rest = count i xs in if x == i then suc rest else rest

pub count-append : (i : ℕ) (xs ys : List ℕ) → count i (xs ++ ys) ≡ count i xs + count i ys
unfolding count
count-append i [] ys = ground arith
count-append i (x ∷ xs) ys = ground (arith, count-append i xs ys)

pub has_key-insert :
    (i k : ℕ) (h : Handle) (m : Inflight)
    → has_key i (insert k h m) ≡ (if k == i then true else has_key i m)
has_key-insert i k h [] = refl
has_key-insert i k h ((j, g) ∷ m) = ground (arith, has_key-insert i k h m)

pub has_key-delete :
    (i k : ℕ) (m : Inflight) → has_key i (delete k m) ≡ (if k == i then false else has_key i m)
has_key-delete i k [] = ground arith
has_key-delete i k ((j, g) ∷ m) = ground (arith, has_key-delete i k m)

pub delete-insert :
    (k : ℕ) (h : Handle) (m : Inflight) → has_key k m ≡ false → delete k (insert k h m) ≡ m
delete-insert k h [] n = ground arith
delete-insert k h ((j, g) ∷ m) n = ground (arith, delete-insert k h m)

pub count-remove_one :
    (i k : ℕ) (xs : List ℕ)
    → In k xs
    → count i (remove_one k xs) + (if k == i then 1 else 0) ≡ count i xs
unfolding remove_one count
count-remove_one i k [] m = elim m [ ]
count-remove_one i k (x ∷ xs) here = ground arith
count-remove_one i k (x ∷ xs) (there m) = ground (arith, count-remove_one i k xs m)
