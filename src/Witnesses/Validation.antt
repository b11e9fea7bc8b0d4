-- ===== src/Witnesses/Validation.antt =====
-- The theorems on validation and on accepted workflows, at concrete workflows.
use hounds_ciai.Prelude.{
  none, ℕ, ◌<◌, ◌*◌, String, true, false, ◌≡◌, ◌↔◌, ◌⊎◌, refl, some, List, [], ◌∷◌, In, here, there,
  arith, ==_false, string_eq,
}
use hounds_ciai.Prelude.{◌≢◌, is_nonempty}
use hounds_ciai.Prelude.Maps.{keys}
use hounds_ciai.Config.Types.{
  state_of, decision_of, gate_of, gate_refs, decision_ref, targets, has_timeout_transition,
  is_timeout,
}
use hounds_ciai.Config.Durations.{
  minute, parse_duration, resolve_no_progress_timeout, resolve_drive_deadline, doubled,
  longest_state_timeout,
}
use hounds_ciai.Config.Graph.{build_graph, reached, tarjan_scc, is_side_effecting}
use hounds_ciai.Config.Graph.Reaching.{Reaches, reached_lem}
use hounds_ciai.Config.Graph.Components.{tarjan_scc_ends}
use hounds_ciai.Config.Validate.{faults_of}
use hounds_ciai.Config.Validate.Bounds.{has_agent, is_capped}
use hounds_ciai.Config.Validate.Accepted.{accepted-verdicts}
use hounds_ciai.Config.Validate.Limits.{accepted-gated, accepted-bounded, accepted-deadline}
use hounds_ciai.Engine.Lookup.{cancel_state, find_event_transition, done_branch_target}
use hounds_ciai.Engine.Driving.{drive}
use hounds_ciai.Engine.Accepted.{follows_schema, drive-Home, done_branch_target-declared}
use hounds_ciai.Samples.{workflow, engine, world, start}
use hounds_ciai.Samples.Reviewed.{
  reviewed, decides, merges, after_time, tangled, overlong, wrapping,
}

sample-Accepted : faults_of (workflow true) ≡ []
unfolding faults_of state_of decision_ref gate_refs targets gate_of build_graph
    resolve_no_progress_timeout
sample-Accepted = refl

reviewed-Accepted : faults_of reviewed ≡ []
unfolding faults_of state_of decision_ref gate_refs targets decision_of gate_of build_graph
    has_timeout_transition resolve_no_progress_timeout parse_duration longest_state_timeout
reviewed-Accepted = refl

reviewed-components :
    tarjan_scc (build_graph reviewed)
    ≡ some (
        ("stuck" ∷ [])
        ∷ ("merged" ∷ [])
        ∷ ("merging" ∷ [])
        ∷ ("reviewing" ∷ "implementing" ∷ "checking" ∷ [])
        ∷ [])
unfolding tarjan_scc build_graph state_of
reviewed-components = refl

-- A cycle that no retry cap and no timeout bounds, draft to check and back, is accepted: its component
-- has a state with a cap.
tangled-Accepted : faults_of tangled ≡ []
unfolding faults_of state_of decision_ref gate_refs targets decision_of gate_of build_graph
    has_timeout_transition resolve_no_progress_timeout parse_duration longest_state_timeout
    is_timeout
tangled-Accepted = refl

tangled-cycle :
    (build_graph tangled
      ≡ ("draft", "check" ∷ []) ∷ ("check", "draft" ∷ "audit" ∷ []) ∷ ("audit", "check" ∷ []) ∷ [])
    × (is_capped tangled ("draft" ∷ "check" ∷ []) ≡ false)
unfolding build_graph state_of is_capped has_timeout_transition is_timeout
tangled-cycle = (refl, refl)

-- A workflow is accepted whose drive ceiling does not resolve, since a timeout does not parse.
overlong-Accepted : faults_of overlong ≡ []
unfolding faults_of state_of decision_ref gate_refs targets decision_of gate_of build_graph
    has_timeout_transition resolve_no_progress_timeout parse_duration longest_state_timeout
    is_timeout
overlong-Accepted = refl

overlong-unresolved : resolve_drive_deadline overlong ≡ none
unfolding resolve_drive_deadline parse_duration longest_state_timeout state_of is_timeout
overlong-unresolved = refl

-- A workflow is accepted whose derived ceiling, an hour, is below a timeout of its state: the double of
-- the timeout wraps.
wrapping-Accepted : faults_of wrapping ≡ []
unfolding faults_of state_of decision_ref gate_refs targets decision_of gate_of build_graph
    has_timeout_transition resolve_no_progress_timeout parse_duration longest_state_timeout
    is_timeout
wrapping-Accepted = refl

wrapping-an_hour : resolve_drive_deadline wrapping ≡ some (60 * minute)
unfolding resolve_drive_deadline parse_duration longest_state_timeout state_of is_timeout doubled
wrapping-an_hour = refl

sample-schema : follows_schema (workflow true) ≡ true
unfolding follows_schema state_of
sample-schema = refl

reviewing-declared : In "reviewing" (keys reviewed.states)
reviewing-declared = there here

checking-declared : In "checking" (keys reviewed.states)
checking-declared = there (there here)

reviewing-member : In decides (state_of reviewed "reviewing").transitions
unfolding state_of
reviewing-member = here

reviewing-times : In (after_time "45m" "stuck") (state_of reviewed "reviewing").transitions
unfolding state_of
reviewing-times = there here

checking-member : In merges (state_of reviewed "checking").transitions
unfolding state_of
checking-member = here

merging-target : In "merging" (targets merges)
unfolding targets
merging-target = here

merging-merges : is_side_effecting (state_of reviewed "merging") ≡ true
unfolding state_of
merging-merges = refl

reviewing-runs : has_agent (state_of reviewed "reviewing") ≡ true
unfolding state_of
reviewing-runs = refl

reviewing-settles :
    find_event_transition (state_of reviewed "reviewing") "agent.done" ≡ some decides
unfolding find_event_transition state_of
reviewing-settles = refl

decides-review : decision_ref decides ≢ ""
unfolding decision_ref
decides-review = ==_false "review" "" refl

changes-declared : In "changes" (decision_of reviewed (decision_ref decides)).verdicts
unfolding decision_of decision_ref
changes-declared = there here

parses-45m : parse_duration "45m" ≡ some (45 * minute)
unfolding parse_duration
parses-45m = refl

deadline-2h : resolve_drive_deadline reviewed ≡ some (120 * minute)
unfolding resolve_drive_deadline parse_duration
deadline-2h = refl

drive-Home_example :
    In
      (drive world (engine true) 3 start).1.task.current_state
      (cancel_state ∷ keys (workflow true).states)
drive-Home_example =
    drive-Home world (engine true) 3 start sample-Accepted sample-schema (there here)

done_branch_target-declared_example :
    In (done_branch_target reviewed "reviewing" "changes") (keys reviewed.states)
done_branch_target-declared_example =
    done_branch_target-declared reviewed "reviewing" decides "changes" reviewed-Accepted
      (there here) reviewing-settles refl refl decides-review changes-declared

accepted-verdicts_example :
    In (decision_ref decides) (keys reviewed.decisions)
    × ((is_nonempty decides.branch ≡ false)
        ⊎ ((v : String)
            → In v (keys decides.branch)
              ↔ In v (decision_of reviewed (decision_ref decides)).verdicts))
accepted-verdicts_example =
    accepted-verdicts reviewed reviewed-Accepted reviewing-declared reviewing-member decides-review

accepted-gated_example : is_nonempty (gate_refs merges) ≡ true
accepted-gated_example =
    accepted-gated reviewed reviewed-Accepted checking-declared merges "merging" checking-member
      merging-target merging-merges

accepted-bounded_example :
    (b : ℕ) × (resolve_no_progress_timeout reviewed.policies ≡ some b)
    × ((0 < b)
        ⊎ ((n : String)
            → In n (keys reviewed.states)
            → (has_agent (state_of reviewed n) ≡ false)
              ⊎ (has_timeout_transition (state_of reviewed n) ≡ true)))
accepted-bounded_example = accepted-bounded reviewed reviewed-Accepted

-- The deadline of `reviewed` is set.
deadline_set : reviewed.policies.drive_deadline ≢ ""
deadline_set = ==_false reviewed.policies.drive_deadline "" refl

accepted-deadline_example : 45 * minute < 120 * minute
unfolding is_timeout
accepted-deadline_example =
    accepted-deadline reviewed reviewed-Accepted reviewing-declared (after_time "45m" "stuck")
      (45 * minute) (120 * minute) reviewing-times refl parses-45m (omega arith)
      (λ unset l e. absurd (deadline_set unset)) deadline-2h

reached_example :
    (t : List String) × (reached (build_graph reviewed) "checking" ≡ some t)
    × ((n : String) → In n t ↔ Reaches (build_graph reviewed) "checking" n)
reached_example = reached_lem (build_graph reviewed) "checking"

tarjan_scc_ends_example :
    (sccs : List (List String)) × (tarjan_scc (build_graph reviewed) ≡ some sccs)
tarjan_scc_ends_example = tarjan_scc_ends (build_graph reviewed)
