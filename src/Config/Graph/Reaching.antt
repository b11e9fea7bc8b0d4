-- ===== src/Config/Graph/Reaching.antt =====
-- The search of checkReachability (internal/config/validate.go), its loop and its invariant.
use hounds_ciai.Prelude.{
  ℕ, zero, suc, ◌+◌, ◌≤◌, String, Bool, true, false, ◌≡◌, ◌↔◌, ◌⊎◌, refl, sym, ap, subst, ◌∙◌,
  Option, none, some, List, [], ◌∷◌, ◌==◌, string_eq, if◌then◌else◌, length, contains, contains-In,
  In, here, there, In-cons, Bool-cases, inl, inr, ==_true, ==_self, ==_flip, arith,
}
use hounds_ciai.Config.Graph.{Graph, next, count_edges, push_all, search_from, reached}

-- The edges of the nodes that are not seen.
unseen : List String → Graph → ℕ
unseen seen [] = 0
unseen seen ((n, ts) ∷ g) = (if contains seen n then 0 else length ts) + unseen seen g

unseen-start : (g : Graph) → unseen [] g ≡ count_edges g
unfolding unseen count_edges
unseen-start [] = refl
unseen-start ((n, ts) ∷ g) = omega (arith, unseen-start g)

unseen-le : (x : String) (seen : List String) (g : Graph) → unseen (x ∷ seen) g ≤ unseen seen g
unfolding unseen
unseen-le x seen [] = omega arith
unseen-le x seen ((n, ts) ∷ g) = ground (arith, unseen-le x seen g)

-- Seeing a node takes at least its edges away.
unseen-see :
    (x : String) (seen : List String) (g : Graph)
    → contains seen x ≡ false
    → unseen (x ∷ seen) g + length (next g x) ≤ unseen seen g
unfolding unseen
unseen-see x seen [] fresh = omega arith
unseen-see x seen ((n, ts) ∷ g) fresh = elim (Bool-cases (n == x)) [
  | inl e ↦
      let p = ==_true n x e in rw p (rw (==_self x, fresh) (omega (arith, unseen-le x seen g)))
  | inr e ↦ rw (e, ==_flip n x e) (omega (arith, unseen-see x seen g fresh))
]

push_all-length : (xs stack : List String) → length (push_all xs stack) ≡ length xs + length stack
unfolding push_all
push_all-length [] stack = omega arith
push_all-length (x ∷ xs) stack = omega (arith, push_all-length xs (x ∷ stack))

none-ne_some : (o : Option (List String)) (t : List String) → o ≡ none → ¬ (o ≡ some t)
none-ne_some o t h k = cc

search_from-out :
    (g : Graph) (seen : List String) (n : String) (stack : List String)
    → search_from g zero seen (n ∷ stack) ≡ none
unfolding search_from
search_from-out g seen n stack = refl

search_from-done :
    (g : Graph) (fuel : ℕ) (seen : List String) → search_from g fuel seen [] ≡ some seen
unfolding search_from
search_from-done g zero seen = refl
search_from-done g (suc fuel) seen = refl

module _ (g : Graph) (fuel : ℕ) (seen : List String) (n : String) (stack : List String) where
  search_from-seen :
      contains seen n ≡ true
      → search_from g (suc fuel) seen (n ∷ stack) ≡ search_from g fuel seen stack
  unfolding search_from
  search_from-seen h =
      ap
        (λ (b : Bool).
          search_from g fuel (if b then seen else n ∷ seen)
            (if b then stack else push_all (next g n) stack))
        h

  search_from-new :
      contains seen n ≡ false
      → search_from g (suc fuel) seen (n ∷ stack)
        ≡ search_from g fuel (n ∷ seen) (push_all (next g n) stack)
  unfolding search_from
  search_from-new h =
      ap
        (λ (b : Bool).
          search_from g fuel (if b then seen else n ∷ seen)
            (if b then stack else push_all (next g n) stack))
        h

search_from_ends :
    (g : Graph) (fuel : ℕ) (seen stack : List String)
    → unseen seen g + length stack ≤ fuel
    → (t : List String) × (search_from g fuel seen stack ≡ some t)
search_from_ends g fuel seen [] h = (seen, search_from-done g fuel seen)
search_from_ends g zero seen (n ∷ stack) h = absurd (omega arith)
search_from_ends g (suc fuel) seen (n ∷ stack) h = elim (Bool-cases (contains seen n)) [
  | inl e ↦
      rw (search_from-seen g fuel seen n stack e) (search_from_ends g fuel seen stack (omega arith))
  | inr e ↦ rw (search_from-new g fuel seen n stack e) (
      search_from_ends g fuel (n ∷ seen) (push_all (next g n) stack)
        (omega (arith, unseen-see n seen g e, push_all-length (next g n) stack)))
]

-- A walk of the graph.
pub data Reaches (g : Graph) (from : String) : String → Type 0 where
  at : Reaches g from from
  on : {n m : String} → Reaches g from n → In m (next g n) → Reaches g from m

-- What holds of the names seen and of those on the stack in each round.
record Inv (g : Graph) (entry : String) (seen stack : List String) : Type 0 where
  source : In entry seen ⊎ In entry stack
  sound_seen : (n : String) → In n seen → Reaches g entry n
  sound_stack : (n : String) → In n stack → Reaches g entry n
  closed : (n m : String) → In n seen → In m (next g n) → In m seen ⊎ In m stack

push_all-In :
    (xs stack : List String) (m : String) → In m (push_all xs stack) ↔ (In m xs ⊎ In m stack)
unfolding push_all
push_all-In [] stack m = (inr, λ h. elim h [ inl i ↦ elim i [ ] | inr i ↦ i ])
push_all-In (x ∷ xs) stack m = (
  λ h. elim ((push_all-In xs (x ∷ stack) m).0 h) [
    | inl i ↦ inl (there i)
    | inr i ↦ elim (In-cons i) [ inl e ↦ inl (rw e here) | inr j ↦ inr j ]
  ],
  λ h. (push_all-In xs (x ∷ stack) m).1 (elim h [
    | inl i ↦ elim (In-cons i) [ inl e ↦ inr (rw e here) | inr j ↦ inl j ]
    | inr i ↦ inr (there i)
  ]),
)

module _ (g : Graph) (entry : String) where
  Inv-seen :
      (seen : List String) (n : String) (stack : List String)
      → In n seen
      → Inv g entry seen (n ∷ stack)
      → Inv g entry seen stack
  Inv-seen seen n stack i h = record {
    source = left entry h.source;
    sound_seen = h.sound_seen;
    sound_stack = λ m j. h.sound_stack m (there j);
    closed = λ x m j k. left m (h.closed x m j k);
  }
    where
      left : (m : String) → In m seen ⊎ In m (n ∷ stack) → In m seen ⊎ In m stack
      left m (inl j) = inl j
      left _ (inr here) = inl i
      left m (inr (there j)) = inr j

  Inv-new :
      (seen : List String) (n : String) (stack : List String)
      → Inv g entry seen (n ∷ stack)
      → Inv g entry (n ∷ seen) (push_all (next g n) stack)
  Inv-new seen n stack h = record {
    source = keep entry h.source;
    sound_seen =
        λ m j. elim (In-cons j) [ inl e ↦ rw e (h.sound_stack n here) | inr k ↦ h.sound_seen m k ];
    sound_stack = λ m j. elim ((push_all-In (next g n) stack m).0 j) [
      | inl k ↦ on (h.sound_stack n here) k
      | inr k ↦ h.sound_stack m (there k)
    ];
    closed = λ x m j k. elim (In-cons j) [
      | inl e ↦ inr ((push_all-In (next g n) stack m).1 (inl (subst (λ y. In m (next g y)) e k)))
      | inr i ↦ keep m (h.closed x m i k)
    ];
  }
    where
      keep :
          (m : String)
          → In m seen ⊎ In m (n ∷ stack)
          → In m (n ∷ seen) ⊎ In m (push_all (next g n) stack)
      keep m (inl j) = inl (there j)
      keep _ (inr here) = inl here
      keep m (inr (there j)) = inr ((push_all-In (next g n) stack m).1 (inr j))

  search_from-Inv :
      (fuel : ℕ) (seen stack t : List String)
      → Inv g entry seen stack
      → search_from g fuel seen stack ≡ some t
      → Inv g entry t []
  search_from-Inv fuel seen [] t inv h =
      let e : some seen ≡ some t = sym (search_from-done g fuel seen) ∙ h in
      let p : seen ≡ t = cc in rw (sym p) inv
  search_from-Inv zero seen (n ∷ stack) t inv h =
      absurd (none-ne_some _ t (search_from-out g seen n stack) h)
  search_from-Inv (suc fuel) seen (n ∷ stack) t inv h = elim (Bool-cases (contains seen n)) [
    | inl e ↦
        search_from-Inv fuel seen stack t (Inv-seen seen n stack (contains-In seen n e) inv)
          (sym (search_from-seen g fuel seen n stack e) ∙ h)
    | inr e ↦
        search_from-Inv fuel (n ∷ seen) (push_all (next g n) stack) t (Inv-new seen n stack inv)
          (sym (search_from-new g fuel seen n stack e) ∙ h)
  ]

  Inv-start : Inv g entry [] (entry ∷ [])
  Inv-start = record {
    source = inr here;
    sound_seen = λ n i. elim i [ ];
    sound_stack = λ n i. elim (In-cons i) [ inl e ↦ rw e at | inr j ↦ elim j [ ] ];
    closed = λ n m i. elim i [ ];
  }

  complete : (t : List String) → Inv g entry t [] → {n : String} → Reaches g entry n → In n t
  complete t h at = elim h.source [ inl i ↦ i | inr i ↦ elim i [ ] ]
  complete t h (on {n} {m} p i) = elim (h.closed n m (complete t h p) i) [
    | inl j ↦ j
    | inr j ↦ elim j [ ]
  ]

  -- The search from a state ends, and the names that it has seen are exactly those to which a walk
  -- of the graph leads.
  pub reached_lem :
      (t : List String) × (reached g entry ≡ some t) × ((n : String) → In n t ↔ Reaches g entry n)
  unfolding reached
  reached_lem =
      let fuel = suc (count_edges g) in
      let (t, e) = search_from_ends g fuel [] (entry ∷ []) (omega (arith, unseen-start g)) in
      let inv = search_from-Inv fuel [] (entry ∷ []) t Inv-start e in
      (t, e, λ n. (inv.sound_seen n, complete t inv))
