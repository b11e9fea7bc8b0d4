-- ===== src/Engine/Lookup.antt =====
-- internal/engine/engine.go: the lookups by which the interpreter reads its workflow.
use hounds_ciai.Prelude.{
  String, Bool, false, not, ◌&&◌, ◌||◌, Option, none, some, List, [], ◌∷◌, ◌==◌, string_eq,
  if◌then◌else◌, find?, any,
}
use hounds_ciai.Prelude.Maps.{lookup, lookup_or}
use hounds_ciai.Config.Types.{
  Workflow, State, Entry, Transition, state_of, gate_of, is_timeout, decision_ref, gate_refs,
  sorted_keys,
}
use hounds_ciai.Engine.Monad.{Engine}

-- `CancelState`.
abbrev pub cancel_state : String
cancel_state = "cancelled"

-- `autoFiredEvents`.
abbrev pub auto_fired_events : List String
auto_fired_events = "scheduled" ∷ []

unfoldable pub find_event_transition : State → String → Option Transition
find_event_transition st event = find? (λ (t : Transition). t.when.event == event) st.transitions

unfoldable pub find_timeout_transition : State → Option Transition
find_timeout_transition st = find? (λ (t : Transition). is_timeout t.when) st.transitions

-- `spawn` or `resume` of an entry.
abbrev pub runs_agent : Entry → Bool
runs_agent en = not (en.spawn == "") || not (en.resume == "")

-- `stateHasAgent`.
unfoldable pub state_has_agent : State → Bool
state_has_agent st = elim st.entry [ none ↦ false | some en ↦ runs_agent en ]

-- `isTerminal`: a declared state with a terminal verdict.
unfoldable pub is_terminal : Workflow → String → Bool
is_terminal wf state = elim (lookup state wf.states) [
  | none ↦ false
  | some st ↦ not (st.terminal == "")
]

-- `isHalt` and `isSettled`.
unfoldable pub is_halt : Engine → String → Bool
is_halt e state = state == e.goal || state == cancel_state || is_terminal e.wf state

unfoldable pub is_settled : Engine → String → Bool
is_settled e state = state == cancel_state || is_terminal e.wf state

-- `alertTerminal`: the first alerting terminal in the order of the names, or "".
unfoldable pub first_alerting : Workflow → List String → String
first_alerting wf [] = ""
first_alerting wf (n ∷ ns) =
    let rest = first_alerting wf ns in
    let st = state_of wf n in if not (st.terminal == "") && st.alert then n else rest

unfoldable pub alert_terminal : Workflow → String
unfolding first_alerting
alert_terminal wf = first_alerting wf (sorted_keys wf.states)

-- `escalationTarget`: the state's timeout target, else the alerting terminal, else the cancel state.
unfoldable pub fallback_target : Workflow → String × String
fallback_target wf =
    let n = alert_terminal wf in
    if not (n == "") then (n, "alert_terminal") else (cancel_state, "no_escalation_target")

unfoldable pub escalation_target : Workflow → String → String × String
unfolding fallback_target
escalation_target wf state = elim (find_timeout_transition (state_of wf state)) [
  | none ↦ fallback_target wf
  | some t ↦ if not (t.to == "") then (t.to, "state_timeout_target") else fallback_target wf
]

-- `stateGatesOnCommits`.
unfoldable pub state_gates_on_commits : Workflow → String → Bool
state_gates_on_commits wf state =
    any (λ (t : Transition). any (λ g. (gate_of wf g).type == "github_commits") (gate_refs t))
      (state_of wf state).transitions

-- `decisionForState` and `decisionRefOf`.
unfoldable pub decision_ref_of : Option Transition → String
decision_ref_of none = ""
decision_ref_of (some t) = decision_ref t

unfoldable pub decision_for_state : State → String
unfolding decision_ref_of
decision_for_state st = decision_ref_of (find_event_transition st "agent.done")

-- `doneBranchTarget`.
unfoldable pub done_branch_target : Workflow → String → String → String
done_branch_target wf state verdict = elim (lookup state wf.states) [
  | none ↦ ""
  | some st ↦ elim (find_event_transition st "agent.done") [
    | none ↦ ""
    | some t ↦ lookup_or verdict "" t.branch
  ]
]
