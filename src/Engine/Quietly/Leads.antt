-- ===== src/Engine/Quietly/Leads.antt =====
-- Where an outcome leads: nowhere, or along an edge of the workflow.
use hounds_ciai.Prelude.{
  String, ◌≡◌, refl, subst, some, List, [], ◌∷◌, ◌==◌, string_eq, In, here, there, find?-some,
  Bool-cases, ==_true, ==_false, ◌≢◌, ◌⊎◌, inl, inr,
}
use hounds_ciai.Prelude.Maps.{lookup_or}
use hounds_ciai.Config.Types.{Workflow, State, Transition, branch_values, state_of}
use hounds_ciai.Engine.Monad.{Engine}
use hounds_ciai.Engine.Lookup.{find_event_transition, find_timeout_transition}
use hounds_ciai.Engine.Merging.{Outcome}
use hounds_ciai.Engine.Waiting.{escalated}
use hounds_ciai.Engine.Steps.{Edge, direct, branched, escalates}

abbrev pub Leads : Workflow → String → Outcome → Type 0
Leads wf from out = (out.next ≡ "") ⊎ Edge wf from out.next

lookup_or-In :
    (v : String) (b : List (String × String))
    → (lookup_or v "" b ≡ "") ⊎ In (lookup_or v "" b) (branch_values b)
lookup_or-In v [] = inl refl
lookup_or-In v ((k, w) ∷ b) = elim (Bool-cases (k == v)) [
  | inl h ↦ rw h (inr here)
  | inr h ↦ rw h (elim (lookup_or-In v b) [ inl n ↦ inl n | inr m ↦ inr (there m) ])
]

pub find_event-In :
    (st : State) (ev : String) (t : Transition)
    → find_event_transition st ev ≡ some t
    → In t st.transitions
unfolding find_event_transition
find_event-In st ev t h = (find?-some _ st.transitions h).0

pub find_timeout-In :
    (st : State) (t : Transition) → find_timeout_transition st ≡ some t → In t st.transitions
unfolding find_timeout_transition
find_timeout-In st t h = (find?-some _ st.transitions h).0

module _ (wf : Workflow) (from : String) where
  pub leads_or_halts : (to : String) → (to ≢ "" → Edge wf from to) → (to ≡ "") ⊎ Edge wf from to
  leads_or_halts to edge = elim (Bool-cases (to == "")) [
    | inl e ↦ inl (==_true to "" e)
    | inr e ↦ inr (edge (==_false to "" e))
  ]

  pub Leads-to :
      (t : Transition) (trigger result : String)
      → In t (state_of wf from).transitions
      → Leads wf from (record { next = t.to; trigger = trigger; result = result })
  Leads-to t trigger result m = leads_or_halts t.to (direct t m refl)

  pub Leads-branch :
      (t : Transition) (v trigger result : String)
      → In t (state_of wf from).transitions
      → Leads wf from
          (record { next = lookup_or v "" t.branch; trigger = trigger; result = result })
  Leads-branch t v trigger result m = elim (lookup_or-In v t.branch) [
    | inl n ↦ inl n
    | inr i ↦ leads_or_halts (lookup_or v "" t.branch) (branched t m i)
  ]

pub Leads-escalated :
    (e : Engine) (from state trigger : String)
    → state ≡ from
    → Leads e.wf from (escalated e state trigger)
unfolding escalated
Leads-escalated e from state trigger h =
    subst (λ f. Leads e.wf f (escalated e state trigger)) h (inr (escalates refl))
