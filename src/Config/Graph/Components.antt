-- ===== src/Config/Graph/Components.antt =====
-- tarjanSCC of internal/config/graph.go: the depth of its calls, and its stack.
use hounds_ciai.Prelude.{
  ℕ, zero, suc, ◌+◌, ◌≤◌, ◌<◌, String, true, false, ◌≡◌, refl, sym, ◌∙◌, ap, Option, some, List, [],
  ◌∷◌, ◌++◌, ◌==◌, string_eq, nat_eq, if◌then◌else◌, length, Bool-cases, inl, inr, ==_true, ==_self,
  ==_flip, append_assoc, arith,
}
use hounds_ciai.Prelude.Maps.{lookup_or, has_key, insert, has_key-insert, lookup_or-missing}
use hounds_ciai.Config.Types.{sorted_keys}
use hounds_ciai.Config.Graph.{
  Graph, next, Tarjan, enter, lower, follow, follow_all, pop_until, pop_component, strong,
  strong_all, unvisited, tarjan_scc,
}

-- The nodes that have no index yet.
fresh : List (String × ℕ) → Graph → ℕ
fresh index [] = 0
fresh index ((n, ts) ∷ g) = (if has_key n index then 0 else 1) + fresh index g

fresh-le_length : (index : List (String × ℕ)) (g : Graph) → fresh index g ≤ length g
unfolding fresh
fresh-le_length index [] = omega arith
fresh-le_length index ((n, ts) ∷ g) = ground (arith, fresh-le_length index g)

Grows : List (String × ℕ) → List (String × ℕ) → Type 0
Grows a b = (n : String) → has_key n a ≡ true → has_key n b ≡ true

fresh-Grows : (a b : List (String × ℕ)) (g : Graph) → Grows a b → fresh b g ≤ fresh a g
unfolding fresh Grows
fresh-Grows a b [] h = omega arith
fresh-Grows a b ((n, ts) ∷ g) h = ground (arith, h n, fresh-Grows a b g h)

insert-Grows : (v : String) (x : ℕ) (a : List (String × ℕ)) → Grows a (insert v x a)
unfolding Grows
insert-Grows v x a n h = ground (arith, has_key-insert n v x a, h)

-- A declared node that is entered is no longer fresh.
fresh-insert :
    (v : String) (x : ℕ) (a : List (String × ℕ)) (g : Graph)
    → has_key v a ≡ false
    → has_key v g ≡ true
    → fresh (insert v x a) g < fresh a g
unfolding fresh
fresh-insert v x a [] new known = cc
fresh-insert v x a ((n, ts) ∷ g) new known = elim (Bool-cases (n == v)) [
  | inl e ↦
      let le = fresh-Grows a (insert v x a) g (insert-Grows v x a) in
      let p : n ≡ v = ==_true n v e in
      let i : has_key n (insert v x a) ≡ true =
        ground (arith, has_key-insert n v x a, e, ==_flip n v) in
      let o : has_key n a ≡ false = rw p new in rw (i, o) (omega (arith, le))
  | inr e ↦
      let lt = fresh-insert v x a g new (ground (arith, known, e)) in
      ground (arith, lt, has_key-insert n v x a, e)
]

-- What a part of the search does to the state: indices stay, and so does the stack below.
record Deepens (st st' : Tarjan) : Type 0 where
  index : Grows st.index st'.index
  top : List String
  stack : st'.stack ≡ top ++ st.stack

abbrev Ends : Tarjan → Option Tarjan → Type 0
Ends st r = (st' : Tarjan) × (r ≡ some st') × Deepens st st'

Deepens-refl : (st : Tarjan) → Deepens st st
unfolding Grows
Deepens-refl st = record { index = λ n h. h; top = []; stack = refl }

Deepens-trans : (a b c : Tarjan) → Deepens a b → Deepens b c → Deepens a c
unfolding Grows
Deepens-trans a b c p q = record {
  index = λ n h. q.index n (p.index n h);
  top = q.top ++ p.top;
  stack = q.stack ∙ (ap (λ l. q.top ++ l) p.stack ∙ sym (append_assoc q.top p.top a.stack));
}

Deepens-lower : (v : String) (x : ℕ) (st : Tarjan) → Deepens st (lower v x st)
unfolding lower Grows
Deepens-lower v x st = record { index = λ n h. h; top = []; stack = refl }

-- The loop pops the node that it looks for, and nothing below it.
pop_until_ends :
    (v : String) (top rest comp : List String) (st : Tarjan)
    → (st' : Tarjan) × (pop_until v (top ++ v ∷ rest) comp st ≡ some st')
      × (st'.index ≡ st.index)
      × (more : List String) × (st'.stack ≡ more ++ rest)
unfolding pop_until
pop_until_ends v [] rest comp st = rw (==_self v) (_, refl, refl, [], refl)
pop_until_ends v (w ∷ top) rest comp st = elim (Bool-cases (w == v)) [
  | inl e ↦ rw e (_, refl, refl, top ++ v ∷ [], sym (append_assoc top (v ∷ []) rest))
  | inr e ↦ rw e (
      pop_until_ends v top rest (comp ++ w ∷ [])
        (record st { stack = top ++ v ∷ rest; on_stack = insert w false st.on_stack }))
]

pop_component_ends :
    (v : String) (top rest : List String) (st : Tarjan)
    → st.stack ≡ top ++ v ∷ rest
    → (st' : Tarjan) × (pop_component v st ≡ some st')
      × (st'.index ≡ st.index)
      × (more : List String) × (st'.stack ≡ more ++ rest)
unfolding pop_component
pop_component_ends v top rest st h =
    elim (Bool-cases (lookup_or v 0 st.low == lookup_or v 0 st.index)) [
      | inl e ↦ rw (pop_component, e) (simp h (pop_until_ends v top rest [] st))
      | inr e ↦
          rw (pop_component, e)
            (st, refl, refl, top ++ v ∷ [], h ∙ sym (append_assoc top (v ∷ []) rest))
    ]

follow_all-nil :
    (call : String → Tarjan → Option Tarjan) (v : String) (st : Tarjan)
    → follow_all call v [] st ≡ some st
unfolding follow_all
follow_all-nil call v st = refl

module _ (g : Graph) where
  -- What a call of `strong` with this fuel does, on a name that has no index.
  abbrev Serves : ℕ → (String → Tarjan → Option Tarjan) → Type 0
  Serves fuel call =
      (w : String) (st : Tarjan)
      → has_key w st.index ≡ false
      → fresh st.index g < fuel
      → Ends st (call w st)

  module _ (fuel : ℕ) (call : String → Tarjan → Option Tarjan) (serves : Serves fuel call)
      (v : String) where
    follow-Ends :
        (w : String) (st : Tarjan) → fresh st.index g < fuel → Ends st (follow call v w st)
    unfolding follow
    follow-Ends w st h = elim (Bool-cases (has_key w st.index)) [
      | inl e ↦
          rw (follow, e)
            (elim (Bool-cases (lookup_or w false st.on_stack)) [
              | inl o ↦ rw o (_, refl, Deepens-lower v (lookup_or w 0 st.index) st)
              | inr o ↦ rw o (st, refl, Deepens-refl st)
            ])
      | inr e ↦
          let (st', q, d) = serves w st e h in
          rw (follow, e) (rw q (_, refl, Deepens-trans st st' _ d (Deepens-lower v _ st')))
    ]

    follow_all-Ends :
        (ws : List String) (st : Tarjan)
        → fresh st.index g < fuel
        → Ends st (follow_all call v ws st)
    unfolding follow_all
    follow_all-Ends [] st h = (st, refl, Deepens-refl st)
    follow_all-Ends (w ∷ ws) st h =
        let (mid, p, d) = follow-Ends w st h in
        let less = fresh-Grows st.index mid.index g d.index in
        let (st', q, d') = follow_all-Ends ws mid (omega arith) in
        rw p (st', q, Deepens-trans st mid st' d d')

  -- A name with an edge is a node, so entering it leaves fewer fresh nodes for the deeper calls.
  edges_follow :
      (fuel : ℕ) (call : String → Tarjan → Option Tarjan)
      → Serves fuel call
      → (v : String) (st : Tarjan) → has_key v st.index ≡ false
      → fresh st.index g < suc fuel
      → Ends (enter v st) (follow_all call v (next g v) (enter v st))
  unfolding enter
  edges_follow fuel call serves v st new h = elim (Bool-cases (has_key v g)) [
    | inl e ↦
        let less = fresh-insert v st.counter st.index g new e in
        follow_all-Ends fuel call serves v (next g v) (enter v st) (omega arith)
    | inr e ↦
        rw (lookup_or-missing v [] g e)
          (enter v st, follow_all-nil call v (enter v st), Deepens-refl (enter v st))
  ]

  strong_ends : (fuel : ℕ) → Serves fuel (strong g fuel)
  unfolding strong enter Grows
  strong_ends zero w st new h = absurd (omega arith)
  strong_ends (suc fuel) w st new h =
      let (mid, p, d) = edges_follow fuel (strong g fuel) (strong_ends fuel) w st new h in
      let (st', q, same, more, stack) = pop_component_ends w d.top st.stack mid d.stack in
      rw p (
        st',
        q,
        record {
          index = λ n k. rw same (d.index n (insert-Grows w st.counter st.index n k));
          top = more;
          stack = stack;
        },
      )

  strong_all-Ends :
      (fuel : ℕ) (vs : List String) (st : Tarjan)
      → fresh st.index g < fuel
      → Ends st (strong_all g fuel vs st)
  unfolding strong_all
  strong_all-Ends fuel [] st h = (st, refl, Deepens-refl st)
  strong_all-Ends fuel (v ∷ vs) st h = elim (Bool-cases (has_key v st.index)) [
    | inl e ↦ rw (strong_all, e) (strong_all-Ends fuel vs st h)
    | inr e ↦
        let (mid, p, d) = strong_ends fuel v st e h in
        let less = fresh-Grows st.index mid.index g d.index in
        let (st', q, d') = strong_all-Ends fuel vs mid (omega arith) in
        rw (strong_all, e) (rw p (st', q, Deepens-trans st mid st' d d'))
  ]

-- Tarjan's algorithm ends on every graph: its calls go no deeper than the number of nodes and one, and
-- it never pops an empty stack.
pub tarjan_scc_ends : (g : Graph) → (sccs : List (List String)) × (tarjan_scc g ≡ some sccs)
unfolding tarjan_scc
tarjan_scc_ends g =
    let few = fresh-le_length [] g in
    let (st, p, d) = strong_all-Ends g (suc (length g)) (sorted_keys g) unvisited (omega arith) in
    rw p (st.out, refl)
