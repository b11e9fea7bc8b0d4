-- ===== src/Engine/Accepted.antt =====
-- The interpreter on a workflow that passed the validator of internal/config. The one rule of the
-- schema that is used is its `oneOf` on a transition: no transition has both a target and branches.
use hounds_ciai.Prelude.{
  ◌↔◌, ◌∙◌, false, ℕ, String, Bool, true, not, ◌≡◌, ◌≢◌, ◌⊎◌, inl, inr, refl, sym, some, List, [],
  ◌∷◌, ◌==◌, string_eq, In, here, there, In-cons, Bool-cases, Option-cases, ==_true, ==_ne, arith,
  is_nonempty, ◌&&◌, ◌||◌, all, all-In, ==_false,
}
use hounds_ciai.Prelude.Maps.{
  lookup, keys, has_key, has_key-In, has_key-lookup, has_key-lookup_ne, In-has_key, lookup_or,
}
use hounds_ciai.Prelude.Sorting.{In-sort_strings}
use hounds_ciai.Config.Types.{
  Workflow, Transition, state_of, targets, branch_values, sorted_keys, decision_ref, decision_of,
}
use hounds_ciai.Config.Validate.Accepted.{Accepted, accepted-targets, accepted-verdicts}
use hounds_ciai.Engine.Monad.{World, Engine, Sys}
use hounds_ciai.Engine.Lookup.{
  cancel_state, escalation_target, fallback_target, alert_terminal, first_alerting,
  find_timeout_transition, find_event_transition, done_branch_target,
}
use hounds_ciai.Engine.Quietly.Leads.{find_timeout-In, find_event-In}
use hounds_ciai.Engine.Steps.{Edge, direct, branched, escalates, cancels}
use hounds_ciai.Engine.Promises.{Walk, stands, steps, drive-Walk}
use hounds_ciai.Engine.Driving.{drive}

-- A transition has a target or branches, not both.
abbrev OneWay : Transition → Type 0
OneWay t = (t.to ≡ "") ⊎ (t.branch ≡ [])

abbrev pub is_one_way : Transition → Bool
is_one_way t = t.to == "" || not (is_nonempty t.branch)

-- So do all transitions of the declared states.
unfoldable pub follows_schema : Workflow → Bool
follows_schema wf = all (λ n. all is_one_way (state_of wf n).transitions) (keys wf.states)

is_one_way-OneWay : (t : Transition) → is_one_way t ≡ true → OneWay t
is_one_way-OneWay t h = elim (Bool-cases (t.to == "")) [
  | inl e ↦ inl (==_true t.to "" e)
  | inr e ↦ inr (empty_branch t.branch (ground (arith, h, e)))
]
  where
    empty_branch : (b : List (String × String)) → not (is_nonempty b) ≡ true → b ≡ []
    empty_branch [] k = refl
    empty_branch (x ∷ b) k = cc

-- A declared state, or the cancel state.
abbrev pub Home : Workflow → String → Type 0
Home wf n = In n (cancel_state ∷ keys wf.states)

first_alerting-In :
    (wf : Workflow) (ns : List String) → (first_alerting wf ns ≡ "") ⊎ In (first_alerting wf ns) ns
unfolding first_alerting
first_alerting-In wf [] = inl refl
first_alerting-In wf (n ∷ ns) =
    let st = state_of wf n in
    elim (Bool-cases (not (st.terminal == "") && st.alert)) [
      | inl e ↦ rw e (inr here)
      | inr e ↦ rw e (elim (first_alerting-In wf ns) [ inl h ↦ inl h | inr i ↦ inr (there i) ])
    ]

fallback_target-Home : (wf : Workflow) → Home wf (fallback_target wf).0
unfolding fallback_target alert_terminal
fallback_target-Home wf = elim (Bool-cases (alert_terminal wf == "")) [
  | inl e ↦ rw e here
  | inr e ↦ rw e (elim (first_alerting-In wf (sorted_keys wf.states)) [
    | inl h ↦ absurd (==_false (alert_terminal wf) "" e h)
    | inr i ↦ there (In-sort_strings (keys wf.states) i)
  ])
]

-- Only a declared state has transitions.
member-declared :
    (wf : Workflow) (n : String) (t : Transition)
    → In t (state_of wf n).transitions
    → In n (keys wf.states)
unfolding state_of
member-declared wf n t = elim (Bool-cases (has_key n wf.states)) [
  | inl e ↦ λ i. has_key-In n wf.states e
  | inr e ↦ rw (has_key-lookup n wf.states e) (λ i. elim i [ ])
]

In-targets_direct : (t : Transition) (to : String) → t.to ≡ to → to ≢ "" → In to (targets t)
unfolding targets
In-targets_direct t to e n = rw (e, ==_ne to "" n) here

In-targets_branch :
    (t : Transition) (to : String) → OneWay t → In to (branch_values t.branch) → In to (targets t)
unfolding targets
In-targets_branch t to (inl e) i = rw e i
In-targets_branch t to (inr e) i = elim (rw e at i) [ ]

follows_schema-OneWay :
    (wf : Workflow) (n : String) (t : Transition)
    → follows_schema wf ≡ true
    → In t (state_of wf n).transitions
    → OneWay t
unfolding follows_schema
follows_schema-OneWay wf n t h i = is_one_way-OneWay t (
    all-In is_one_way (state_of wf n).transitions
      (all-In (λ m. all is_one_way (state_of wf m).transitions) (keys wf.states) h
        (member-declared wf n t i))
      i)

module _ (wf : Workflow) (accepted : Accepted wf) (schema : follows_schema wf ≡ true) where
  targets-Home :
      (n : String) (t : Transition) (to : String)
      → In t (state_of wf n).transitions
      → In to (targets t)
      → Home wf to
  targets-Home n t to m i = there (accepted-targets wf accepted (member-declared wf n t m) m to i)

  escalation_target-Home : (n : String) → Home wf (escalation_target wf n).0
  unfolding escalation_target
  escalation_target-Home n = elim (Option-cases (find_timeout_transition (state_of wf n))) [
    | inl e ↦ rw (escalation_target, e) (fallback_target-Home wf)
    | inr (t, e) ↦
        rw (escalation_target, e)
          (elim (Bool-cases (t.to == "")) [
            | inl b ↦ rw b (fallback_target-Home wf)
            | inr b ↦ rw b (
                targets-Home n t t.to (find_timeout-In (state_of wf n) t e)
                  (In-targets_direct t t.to refl (==_false t.to "" b)))
          ])
  ]

  Edge-Home : {n m : String} → Edge wf n m → Home wf m
  Edge-Home {n} {m} (direct t i e ne) = targets-Home n t m i (In-targets_direct t m e ne)
  Edge-Home {n} {m} (branched t i j ne) =
      targets-Home n t m i (In-targets_branch t m (follows_schema-OneWay wf n t schema i) j)
  Edge-Home {n} (escalates e) = rw (sym e) (escalation_target-Home n)
  Edge-Home (cancels e) = rw (sym e) here

  Walk-Home : {n m : String} → Home wf n → Walk wf n m → Home wf m
  Walk-Home h stands = h
  Walk-Home h (steps w e) = Edge-Home e

-- On a workflow that the validator accepts, in which no transition has both a target and branches, a
-- drive of a task in a declared state leaves it in a
-- declared state or in the cancel state, whatever the world answers and however many rounds are given.
pub drive-Home :
    {W : Type 0} (ext : World W) (e : Engine) (rounds : ℕ) (s : Sys W)
    → Accepted e.wf
    → follows_schema e.wf ≡ true
    → Home e.wf s.task.current_state
    → Home e.wf (drive ext e rounds s).1.task.current_state
drive-Home ext e rounds s accepted schema start =
    Walk-Home e.wf accepted schema start (drive-Walk ext e rounds s)

lookup_or-In_values :
    (v : String) (b : List (String × String))
    → In v (keys b)
    → In (lookup_or v "" b) (branch_values b)
lookup_or-In_values v [] i = elim i [ ]
lookup_or-In_values v ((k, w) ∷ b) i = elim (Bool-cases (k == v)) [
  | inl e ↦ rw e here
  | inr e ↦ rw e (elim (In-cons i) [
    | inl p ↦ absurd (==_false k v e (sym p))
    | inr j ↦ there (lookup_or-In_values v b j)
  ])
]

unequal : ¬ (true ≡ false)
unequal e = cc

done_branch_target-eq :
    (wf : Workflow) (n : String) (t : Transition) (v : String)
    → In n (keys wf.states)
    → find_event_transition (state_of wf n) "agent.done" ≡ some t
    → done_branch_target wf n v ≡ lookup_or v "" t.branch
unfolding done_branch_target state_of
done_branch_target-eq wf n t v i = elim (Option-cases (lookup n wf.states)) [
  | inl e ↦ absurd (has_key-lookup_ne n wf.states (In-has_key wf.states i) e)
  | inr (st, e) ↦ rw (done_branch_target, e) (λ h. simp h refl)
]

-- In a workflow that the validator accepts, when the first agent.done transition of a declared state
-- has branches, no target of its own, and a decision, each verdict that the decision declares leads
-- to a declared state.
pub done_branch_target-declared :
    (wf : Workflow) (n : String) (t : Transition) (v : String)
    → Accepted wf
    → In n (keys wf.states)
    → find_event_transition (state_of wf n) "agent.done" ≡ some t
    → t.to ≡ ""
    → is_nonempty t.branch ≡ true
    → decision_ref t ≢ ""
    → In v (decision_of wf (decision_ref t)).verdicts
    → In (done_branch_target wf n v) (keys wf.states)
done_branch_target-declared wf n t v accepted declared settles no_target branches decides verdict =
    let member = find_event-In (state_of wf n) "agent.done" t settles in
    let covered : In v (keys t.branch) ↔ In v (decision_of wf (decision_ref t)).verdicts =
      elim (accepted-verdicts wf accepted declared member decides).1 [
        | inl bare ↦ absurd (unequal (sym branches ∙ bare))
        | inr covers ↦ covers v
      ] in
    let aimed = lookup_or-In_values v t.branch (covered.1 verdict) in
    rw (done_branch_target-eq wf n t v declared settles) (
      accepted-targets wf accepted declared member (lookup_or v "" t.branch)
        (In-targets_branch t _ (inl no_target) aimed))
