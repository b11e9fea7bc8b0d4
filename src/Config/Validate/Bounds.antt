-- ===== src/Config/Validate/Bounds.antt =====
-- internal/config/validate.go: the checks of loops, exits, reachability and bounds, and of the tools
-- that a role allows.
use hounds_ciai.Prelude.{
  ℕ, String, Bool, true, false, not, ◌&&◌, ◌||◌, Option, none, some, List, [], ◌∷◌, ◌==◌, nat_eq,
  string_eq, ltb, leb, if◌then◌else◌, is_nonempty, any, contains, gather, note,
}
use hounds_ciai.Prelude.Maps.{has_key, lookup}
use hounds_ciai.Prelude.Sorting.{sort_strings}
use hounds_ciai.Config.Types.{State, Role, Workflow, state_of, sorted_keys, has_timeout_transition}
use Prim.Native.Char.{Char, code}
use hounds_ciai.Config.Durations.{
  parse_duration, resolve_no_progress_timeout, longest_state_timeout,
}
use hounds_ciai.Config.Graph.{Graph, build_graph, next, tarjan_scc, reached}
use hounds_ciai.Config.Validate.Messages.{
  Fault, unbounded_cycle, no_exit, undeclared_entry, unbounded_agent, bad_no_progress,
  bad_drive_deadline, bad_state_timeout, early_deadline, unsafe_tool, Warning,
  terminal_with_transitions, unreachable, no_entry_state, no_progress_bound,
}

-- `checkLoopsTerminate`.
unfoldable pub components : Graph → List (List String)
unfolding tarjan_scc
components g = elim (tarjan_scc g) [ none ↦ [] | some sccs ↦ sccs ]

unfoldable pub is_cyclic : Graph → List String → Bool
is_cyclic g [] = false
is_cyclic g (n ∷ []) = contains (next g n) n
is_cyclic g (n ∷ m ∷ comp) = true

unfoldable pub is_capped : Workflow → List String → Bool
is_capped wf comp =
    any (λ n. has_key n wf.policies.retry_caps || has_timeout_transition (state_of wf n)) comp

unfoldable pub check_component : Workflow → List String → List Fault
unfolding is_cyclic is_capped
check_component wf comp =
    note (is_cyclic (build_graph wf) comp && not (is_capped wf comp))
      (unbounded_cycle (sort_strings comp))

unfoldable pub check_loops_terminate : Workflow → List Fault
unfolding check_component components
check_loops_terminate wf = gather (check_component wf) (components (build_graph wf))

-- The exits: faults, and warnings.
unfoldable pub check_exit : Workflow → String → List Fault
check_exit wf n =
    let s = state_of wf n in
    note (s.terminal == "" && not (is_nonempty s.transitions) && s.wait_for == "") (no_exit n)

unfoldable pub warn_terminal : Workflow → String → List Warning
warn_terminal wf n =
    let s = state_of wf n in
    note (not (s.terminal == "") && is_nonempty s.transitions) (terminal_with_transitions n)

-- `checkReachability`.
unfoldable pub warn_unreachable : Workflow → List String → String → List Warning
warn_unreachable wf seen n =
    note (not (contains seen n) && (state_of wf n).wait_for == "") (unreachable n)

unfoldable pub warn_from : Workflow → String → List Warning
unfolding warn_unreachable reached
warn_from wf entry = elim (reached (build_graph wf) entry) [
  | none ↦ []
  | some seen ↦ gather (warn_unreachable wf seen) (sorted_keys wf.states)
]

unfoldable pub check_reachability : Workflow → List Warning × List Fault
unfolding warn_from
check_reachability wf = elim wf.entry_state [
  | none ↦ (no_entry_state ∷ [], [])
  | some entry ↦
      if has_key entry wf.states
      then (warn_from wf entry, [])
      else ([], undeclared_entry entry ∷ [])
]

-- `checkAgentStatesBounded`.
abbrev pub has_agent : State → Bool
has_agent s = elim s.entry [ none ↦ false | some en ↦ not (en.spawn == "" && en.resume == "") ]

unfoldable pub check_bounded : Workflow → String → List Fault
check_bounded wf n =
    note (has_agent (state_of wf n) && not (has_timeout_transition (state_of wf n)))
      (unbounded_agent n)

unfoldable pub check_agent_states_bounded : Workflow → List Warning × List Fault
unfolding check_bounded
check_agent_states_bounded wf = elim (resolve_no_progress_timeout wf.policies) [
  | none ↦ ([], bad_no_progress ∷ [])
  | some bound ↦
      if ltb 0 bound
      then ([], [])
      else (no_progress_bound ∷ [], gather (check_bounded wf) (sorted_keys wf.states))
]

-- `checkDriveDeadline`.
unfoldable pub above_longest : ℕ → Option ℕ → List Fault
above_longest deadline none = bad_state_timeout ∷ []
above_longest deadline (some longest) =
    note (ltb 0 longest && leb deadline longest) (early_deadline deadline longest)

unfoldable pub check_drive_deadline : Workflow → List Fault
unfolding above_longest
check_drive_deadline wf =
    if wf.policies.drive_deadline == ""
    then []
    else elim (parse_duration wf.policies.drive_deadline) [
      | none ↦ bad_drive_deadline ∷ []
      | some deadline ↦ above_longest deadline (longest_state_timeout wf)
    ]

-- `shellSafeToolToken`.
unfoldable pub is_token_rune : Char → Bool
is_token_rune c =
    leb b'a' (code c) && leb (code c) b'z'
    || leb b'A' (code c) && leb (code c) b'Z'
    || leb b'0' (code c) && leb (code c) b'9'
    || code c == b'_'

unfoldable pub all_token_runes : String → Bool
unfolding is_token_rune
all_token_runes String.[] = true
all_token_runes (String.◌∷◌ c s) = is_token_rune c && all_token_runes s

unfoldable pub shell_safe_tool_token : String → Bool
unfolding all_token_runes
shell_safe_tool_token s = if s == "" then false else all_token_runes s

-- `checkAllowedTools`.
abbrev pub no_role : Role
no_role = record {
  launch = [];
  task_delivery = "";
  workspace = "";
  kickoff = "";
  allowed_tools = [];
}

unfoldable pub role_of : Workflow → String → Role
role_of wf name = elim (lookup name wf.roles) [ none ↦ no_role | some r ↦ r ]

unfoldable pub check_tools : Workflow → String → List Fault
unfolding role_of shell_safe_tool_token
check_tools wf n =
    gather (λ tok. note (not (shell_safe_tool_token tok)) (unsafe_tool n tok))
      (role_of wf n).allowed_tools
