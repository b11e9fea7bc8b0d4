-- ===== src/Config/Validate.antt =====
-- internal/config/validate.go and load.go: the semantic checks of a decoded workflow, in the order in
-- which the code appends their messages, and the pipeline around them. The schema's validation and
-- YAML's decoding are parameters of `parse`, a read of the file one of `load`.
pub mod Messages
pub mod Edges
pub mod Bounds
pub mod Sets
pub mod Accepted
pub mod Limits
use hounds_ciai.Prelude.{
  ℕ, zero, suc, ◌<◌, String, Bool, true, false, not, ◌&&◌, ◌||◌, Option, none, some, List, [], ◌∷◌,
  ◌++◌, ◌==◌, nat_eq, string_eq, ltb, leb, if◌then◌else◌, is_nonempty, length, all, any, contains,
  gather, note,
}
use hounds_ciai.Prelude.Maps.{has_key, lookup}
use hounds_ciai.Prelude.Sorting.{sort_strings}
use hounds_ciai.Config.Types.{
  Transition, Entry, State, Gate, Role, Workflow, Action, state_of, gate_of, decision_of,
  sorted_keys, decision_ref, gate_refs, targets, has_timeout_transition,
}
use hounds_ciai.Config.Validate.Messages.{Fault, Warning}
use hounds_ciai.Config.Validate.Edges.{check_state, check_gate, check_anchor, check_merge_gated}
use hounds_ciai.Config.Validate.Bounds.{
  check_loops_terminate, check_exit, warn_terminal, check_reachability, check_agent_states_bounded,
  check_drive_deadline, check_tools,
}

-- `semanticChecks`.
unfoldable pub faults_of : Workflow → List Fault
unfolding check_state check_gate check_anchor check_merge_gated check_loops_terminate check_exit
    check_reachability check_agent_states_bounded check_drive_deadline check_tools
faults_of wf =
    let names = sorted_keys wf.states in
    let gates = sorted_keys wf.gates in
    gather (check_state wf) names
    ++ (gather (check_gate wf) gates
        ++ (gather (check_anchor wf) gates
            ++ (gather (check_merge_gated wf) names
                ++ (check_loops_terminate wf
                    ++ (gather (check_exit wf) names
                        ++ ((check_reachability wf).1
                            ++ ((check_agent_states_bounded wf).1
                                ++ (check_drive_deadline wf
                                    ++ gather (check_tools wf) (sorted_keys wf.roles)))))))))

unfoldable pub warnings_of : Workflow → List Warning
unfolding warn_terminal check_reachability check_agent_states_bounded
warnings_of wf =
    gather (warn_terminal wf) (sorted_keys wf.states)
    ++ ((check_reachability wf).0 ++ (check_agent_states_bounded wf).0)

unfoldable pub semantic_checks : Workflow → List Warning × List Fault
unfolding warnings_of faults_of
semantic_checks wf = (warnings_of wf, faults_of wf)

-- `ValidationErrors` by its stage, and the two failures that are wrapped.
pub data LoadError : Type 0 where
  unreadable unschemed undecoded : LoadError
  schema_stage : List String → LoadError
  semantic_stage : List Fault → LoadError

pub record Loaded : Type 0 where
  pub workflow : Option Workflow
  pub warnings : List Warning
  pub error : Option LoadError

abbrev failed : LoadError → Loaded
failed e = record { workflow = none; warnings = []; error = some e }

unfoldable pub checked : Workflow → Loaded
unfolding semantic_checks
checked wf = record {
  workflow = some wf;
  warnings = (semantic_checks wf).0;
  error = elim (semantic_checks wf).1 [ [] ↦ none | f ∷ fs ↦ some (semantic_stage (f ∷ fs)) ];
}

-- The text of a file is of any type: only the parameters read it.
module _ {Text : Type 0} (validate_schema : Text → Option (List String))
    (unmarshal : Text → Option Workflow) where
  unfoldable pub decode : Text → Loaded
  unfolding checked
  decode text = elim (unmarshal text) [ none ↦ failed undecoded | some wf ↦ checked wf ]

  -- `parse`.
  unfoldable pub parse : Text → Loaded
  unfolding decode
  parse text = elim (validate_schema text) [
    | none ↦ failed unschemed
    | some [] ↦ decode text
    | some (v ∷ vs) ↦ failed (schema_stage (v ∷ vs))
  ]

  -- `Load`.
  unfoldable pub load : (String → Option Text) → String → Loaded
  unfolding parse
  load read_file path = elim (read_file path) [ none ↦ failed unreadable | some text ↦ parse text ]
