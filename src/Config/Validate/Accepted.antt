-- ===== src/Config/Validate/Accepted.antt =====
-- What an accepted workflow, one with no fault, is known to satisfy.
use hounds_ciai.Prelude.{
  ℕ, suc, String, Bool, true, false, not, ◌≡◌, ◌≢◌, ◌↔◌, ◌⊎◌, inl, inr, Bool-cases, refl, List, [],
  ◌∷◌, ◌==◌, string_eq, is_nonempty, In, here, there, gather, gather-nil, note, ◌&&◌, append-eq-nil,
  ==_ne,
}
use hounds_ciai.Prelude.Maps.{has_key, keys, has_key-In}
use hounds_ciai.Prelude.Sorting.{sort_strings-In, In-sort_strings}
use hounds_ciai.Config.Types.{
  Transition, Workflow, state_of, decision_of, sorted_keys, decision_ref, gate_refs, targets,
}
use hounds_ciai.Config.Validate.Messages.{Fault, unknown_decision, unknown_gate, unknown_target}
use hounds_ciai.Config.Validate.Edges.{
  each_transition, check_transition, check_branch, check_state, check_entry_roles, same_set,
  check_merge_gated, check_gate, check_anchor,
}
use hounds_ciai.Config.Validate.Bounds.{
  check_loops_terminate, check_exit, check_reachability, check_agent_states_bounded,
  check_drive_deadline, check_tools,
}
use hounds_ciai.Config.Validate.{faults_of}
use hounds_ciai.Config.Validate.Sets.{same_set_lem}

-- The workflow passes the semantic checks.
abbrev pub Accepted : Workflow → Type 0
Accepted wf = faults_of wf ≡ []

pub each_transition-nil :
    (check : ℕ → Transition → List Fault) (i : ℕ) (ts : List Transition) {t : Transition}
    → each_transition check i ts ≡ []
    → In t ts
    → (j : ℕ) × (check j t ≡ [])
unfolding each_transition
each_transition-nil check i [] h m = elim m [ ]
each_transition-nil check i (t ∷ ts) h here = (i, (append-eq-nil (check i t) _ h).0)
each_transition-nil check i (t ∷ ts) h (there m) =
    each_transition-nil check (suc i) ts (append-eq-nil (check i t) _ h).1 m

-- The parts of the checks.
pub record Parts (wf : Workflow) : Type 0 where
  pub states : gather (check_state wf) (sorted_keys wf.states) ≡ []
  pub gates : gather (check_gate wf) (sorted_keys wf.gates) ≡ []
  pub anchors : gather (check_anchor wf) (sorted_keys wf.gates) ≡ []
  pub merges : gather (check_merge_gated wf) (sorted_keys wf.states) ≡ []
  pub loops : check_loops_terminate wf ≡ []
  pub exits : gather (check_exit wf) (sorted_keys wf.states) ≡ []
  pub reach : (check_reachability wf).1 ≡ []
  pub agents : (check_agent_states_bounded wf).1 ≡ []
  pub deadline : check_drive_deadline wf ≡ []
  pub tools : gather (check_tools wf) (sorted_keys wf.roles) ≡ []

pub parts : (wf : Workflow) → Accepted wf → Parts wf
unfolding faults_of
parts wf h =
    let names = sorted_keys wf.states in
    let gates = sorted_keys wf.gates in
    let h1 = append-eq-nil (gather (check_state wf) names) _ h in
    let h2 = append-eq-nil (gather (check_gate wf) gates) _ h1.1 in
    let h3 = append-eq-nil (gather (check_anchor wf) gates) _ h2.1 in
    let h4 = append-eq-nil (gather (check_merge_gated wf) names) _ h3.1 in
    let h5 = append-eq-nil (check_loops_terminate wf) _ h4.1 in
    let h6 = append-eq-nil (gather (check_exit wf) names) _ h5.1 in
    let h7 = append-eq-nil (check_reachability wf).1 _ h6.1 in
    let h8 = append-eq-nil (check_agent_states_bounded wf).1 _ h7.1 in
    let h9 = append-eq-nil (check_drive_deadline wf) _ h8.1 in
    record {
      states = h1.0;
      gates = h2.0;
      anchors = h3.0;
      merges = h4.0;
      loops = h5.0;
      exits = h6.0;
      reach = h7.0;
      agents = h8.0;
      deadline = h9.0;
      tools = h9.1;
    }

-- A declared name is among the sorted ones.
pub In-sorted_keys :
    {V : Type 0} {n : String} (m : List (String × V)) → In n (keys m) → In n (sorted_keys m)
In-sorted_keys m i = sort_strings-In (keys m) i

pub not-note-nil : (b : Bool) (f : Fault) → note (not b) f ≡ [] → b ≡ true
not-note-nil true f h = refl
not-note-nil false f h = cc

decided : (a b : Bool) (f : Fault) → a ≡ false → note (not a && not b) f ≡ [] → b ≡ true
decided true b f e h = cc
decided false b f e h = not-note-nil b f h

branches_cover :
    (wf : Workflow) (n : String) (i : ℕ) (t : Transition)
    → (decision_ref t == "") ≡ false
    → is_nonempty t.branch ≡ true
    → check_branch wf n i t ≡ []
    → same_set (sorted_keys t.branch) (decision_of wf (decision_ref t)).verdicts ≡ true
unfolding check_branch
branches_cover wf n i t named branches = rw (named, branches) (not-note-nil _ _)

pass_fail_cover :
    (wf : Workflow) (n : String) (i : ℕ) (t : Transition)
    → decision_ref t ≡ ""
    → is_nonempty (gate_refs t) ≡ true
    → is_nonempty t.branch ≡ true
    → check_branch wf n i t ≡ []
    → same_set (sorted_keys t.branch) ("pass" ∷ "fail" ∷ []) ≡ true
unfolding check_branch
pass_fail_cover wf n i t named gated branches = rw (named, gated, branches) (not-note-nil _ _)

-- The parts of the check of a transition.
record Clean (wf : Workflow) (n : String) (t : Transition) : Type 0 where
  at_ : ℕ
  decision :
      note
        (not (decision_ref t == "") && not (has_key (decision_ref t) wf.decisions))
        (unknown_decision n at_ (decision_ref t))
      ≡ []
  gates : gather (λ g. note (not (has_key g wf.gates)) (unknown_gate n at_ g)) (gate_refs t) ≡ []
  targets_ :
      gather (λ m. note (not (has_key m wf.states)) (unknown_target n at_ m)) (targets t) ≡ []
  branch : check_branch wf n at_ t ≡ []

check_transition-Clean :
    (wf : Workflow) (n : String) (t : Transition) (i : ℕ)
    → check_transition wf n i t ≡ []
    → Clean wf n t
unfolding check_transition
check_transition-Clean wf n t i h =
    let h1 =
      append-eq-nil
        (note (not (decision_ref t == "") && not (has_key (decision_ref t) wf.decisions))
          (unknown_decision n i (decision_ref t)))
        _ h in
    let h2 =
      append-eq-nil
        (gather (λ g. note (not (has_key g wf.gates)) (unknown_gate n i g)) (gate_refs t)) _ h1.1 in
    let h3 =
      append-eq-nil
        (gather (λ m. note (not (has_key m wf.states)) (unknown_target n i m)) (targets t)) _
        h2.1 in
    record { at_ = i; decision = h1.0; gates = h2.0; targets_ = h3.0; branch = h3.1 }

module _ (wf : Workflow) (accepted : Accepted wf) {n : String} (declared : In n (keys wf.states))
    {t : Transition} (member : In t (state_of wf n).transitions) where
  clean : Clean wf n t
  unfolding check_state
  clean =
      let none_of =
        gather-nil (check_state wf) (sorted_keys wf.states) (parts wf accepted).states
          (In-sorted_keys wf.states declared) in
      let (i, h) =
        each_transition-nil (check_transition wf n) 0 (state_of wf n).transitions
          (append-eq-nil (check_entry_roles wf n (state_of wf n)) _ none_of).1 member in
      check_transition-Clean wf n t i h

  -- In an accepted workflow every target of a declared state's transition is a declared state.
  pub accepted-targets : (m : String) → In m (targets t) → In m (keys wf.states)
  accepted-targets m i = has_key-In m wf.states (
      not-note-nil _ _ (
        gather-nil (λ x. note (not (has_key x wf.states)) (unknown_target n clean.at_ x))
          (targets t) clean.targets_ i))

  -- In an accepted workflow every gate that a declared state's transition refers to is declared.
  pub accepted-gate_refs : (g : String) → In g (gate_refs t) → In g (keys wf.gates)
  accepted-gate_refs g i = has_key-In g wf.gates (
      not-note-nil _ _ (
        gather-nil (λ x. note (not (has_key x wf.gates)) (unknown_gate n clean.at_ x)) (gate_refs t)
          clean.gates i))

  -- In an accepted workflow the decision that a declared state's transition refers to is declared,
  -- and where the transition branches it has a branch for each verdict of the decision, and for
  -- nothing else.
  pub accepted-verdicts :
      decision_ref t ≢ ""
      → In (decision_ref t) (keys wf.decisions)
        × ((is_nonempty t.branch ≡ false)
            ⊎ ((v : String)
                → In v (keys t.branch) ↔ In v (decision_of wf (decision_ref t)).verdicts))
  accepted-verdicts names =
      let named = ==_ne (decision_ref t) "" names in
      let known : has_key (decision_ref t) wf.decisions ≡ true =
        decided (decision_ref t == "") (has_key (decision_ref t) wf.decisions) _ named
          clean.decision in
      (
        has_key-In (decision_ref t) wf.decisions known,
        elim (Bool-cases (is_nonempty t.branch)) [
          | inr none_there ↦ inl none_there
          | inl branches ↦
              let covers =
                same_set_lem (sorted_keys t.branch) (decision_of wf (decision_ref t)).verdicts
                  (branches_cover wf n clean.at_ t named branches clean.branch) in
              inr (λ v. (
                λ i. (covers v).0 (sort_strings-In (keys t.branch) i),
                λ i. In-sort_strings (keys t.branch) ((covers v).1 i),
              ))
        ],
      )

  -- In an accepted workflow a declared state's transition that branches on gates, and on no
  -- decision, branches on pass and fail exactly.
  pub accepted-pass_fail :
      decision_ref t ≡ ""
      → is_nonempty (gate_refs t) ≡ true
      → is_nonempty t.branch ≡ true
      → (v : String) → In v (keys t.branch) ↔ In v ("pass" ∷ "fail" ∷ [])
  accepted-pass_fail none_named gated branches v =
      let covers =
        same_set_lem (sorted_keys t.branch) ("pass" ∷ "fail" ∷ [])
          (pass_fail_cover wf n clean.at_ t none_named gated branches clean.branch) in
      (
        λ i. (covers v).0 (sort_strings-In (keys t.branch) i),
        λ i. In-sort_strings (keys t.branch) ((covers v).1 i),
      )
