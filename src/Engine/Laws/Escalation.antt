-- ===== src/Engine/Laws/Escalation.antt =====
-- Where a bound that is no declared transition gives up to.
use hounds_ciai.Prelude.{
  String, true, not, ◌≡◌, ◌≢◌, refl, Option, none, some, ◌==◌, string_eq, inl, inr, Bool-cases,
  ==_false, arith,
}
use hounds_ciai.Config.Types.{Workflow, Transition, state_of}
use hounds_ciai.Engine.Lookup.{
  cancel_state, find_timeout_transition, alert_terminal, fallback_target, escalation_target,
}

not_empty : (s : String) → not (s == "") ≡ true → s ≢ ""
not_empty s h = ==_false s "" (ground arith)

fallback_target_ne : (wf : Workflow) → (fallback_target wf).0 ≢ ""
unfolding fallback_target
fallback_target_ne wf =
    elim (Bool-cases (not (alert_terminal wf == ""))) as (λ _. (fallback_target wf).0 ≢ "") [
      | inl h ↦ rw (fallback_target, h) (not_empty (alert_terminal wf) h)
      | inr h ↦ rw (fallback_target, h) (==_false cancel_state "" refl)
    ]

-- Every bound has somewhere to go: in each state of each workflow, declared or not, the target of an
-- escalation is a name and not the empty text that the interpreter takes for a halt.
pub escalation_target_ne : (wf : Workflow) (state : String) → (escalation_target wf state).0 ≢ ""
unfolding escalation_target
escalation_target_ne wf state = go (find_timeout_transition (state_of wf state)) refl
  where
    go :
        (t : Option Transition)
        → find_timeout_transition (state_of wf state) ≡ t
        → (escalation_target wf state).0 ≢ ""
    go none h = rw (escalation_target, h) (fallback_target_ne wf)
    go (some t) h = elim (Bool-cases (not (t.to == ""))) [
      | inl n ↦ rw (escalation_target, h) (rw n (not_empty t.to n))
      | inr n ↦ rw (escalation_target, h) (rw n (fallback_target_ne wf))
    ]
