-- ===== src/Daemon.antt =====
-- cmd/orchestratord/main.go: what the daemon decides by itself, apart from its flags and its wiring:
-- which states are settled, which issues are done or seeded, the bounds and the plan that it shows.
pub mod Settled
pub mod Plan
use hounds_ciai.Prelude.{
  ℕ, String, Bool, true, false, not, ◌&&◌, ◌||◌, Option, none, some, List, [], ◌∷◌, ◌++◌, ◌==◌,
  string_eq, if◌then◌else◌, is_nonempty, contains, gather, note, filter, find?,
}
use hounds_ciai.Prelude.Maps.{lookup, keys, has_key}
use hounds_ciai.Prelude.Sorting.{sort_strings}
use hounds_ciai.Result.{Result, ok, err, not_found}
use hounds_ciai.Config.Types.{
  Source, State, Transition, Entry, Workflow, state_of, sorted_keys, source_label, dry_run_enabled,
  is_timeout, has_timeout_transition,
}
use hounds_ciai.Config.Graph.{build_graph, next, is_side_effecting}
use hounds_ciai.Config.Validate.Bounds.{components, is_cyclic}
use hounds_ciai.Store.{Task, Store, get_task, list_tasks}
use hounds_ciai.Engine.Lookup.{cancel_state, runs_agent}
use hounds_ciai.Engine.Naming.{task_id}

-- `sourceLabel`: none is its error.
unfoldable pub watched_label : Workflow → Option String
watched_label wf = let l = source_label wf in if not (l == "") then some l else none

-- `terminalStates`.
unfoldable pub terminal_states : Workflow → List String
terminal_states wf = filter (λ n. not ((state_of wf n).terminal == "")) (keys wf.states)

-- `settledStates`.
abbrev pub merges_pr : State → Bool
merges_pr s = elim s.entry [ none ↦ false | some en ↦ en.action == "merge_pr" ]

unfoldable pub settled_states : Workflow → List String
unfolding terminal_states
settled_states wf =
    let merging = filter (λ n. merges_pr (state_of wf n)) (keys wf.states) in
    terminal_states wf ++ (cancel_state ∷ (if dry_run_enabled wf.policies then merging else []))

-- `done`: the answer, and whether the source label's removal is asked for. What the removal answers
-- changes nothing. `found` is the store's answer, of which a missing row is no failure.
unfoldable pub done_of : List String → Result Task → Result Bool × Bool
done_of settled (err not_found) = (ok false, false)
done_of settled (err e) = (err e, false)
done_of settled (ok t) =
    let is_settled = contains settled t.current_state in (ok is_settled, is_settled)

unfoldable pub done_check : List String → Store → ℕ → Result Bool × Bool
unfolding done_of
done_check settled s issue = done_of settled (get_task (task_id issue) s)

-- `SeedFrom`.
unfoldable pub unsettled : List String → List Task → List ℕ
unsettled settled [] = []
unsettled settled (t ∷ ts) =
    let rest = unsettled settled ts in
    if contains settled t.current_state then rest else t.issue ∷ rest

unfoldable pub seed_from : List String → Store → List ℕ
unfolding unsettled
seed_from settled s = unsettled settled (list_tasks s)

-- `repoSlug`.
unfoldable pub slug_of : List Source → String
slug_of [] = ""
slug_of (s ∷ ss) =
    let rest = slug_of ss in
    if s.type == "github_issues" && not (s.repo == "") then s.repo else rest

unfoldable pub repo_slug : Workflow → String
unfolding slug_of
repo_slug wf = slug_of wf.sources

-- `deadlinesFor`: the state's timeout and the blocked bound, "" where there is none.
unfoldable pub first_timeout : List Transition → String
first_timeout ts = elim (find? (λ (t : Transition). is_timeout t.when) ts) [
  | none ↦ ""
  | some t ↦ t.when.timeout
]

unfoldable pub deadlines_of : Workflow → State → String × String
unfolding first_timeout
deadlines_of wf st = (
  first_timeout st.transitions,
  elim st.entry [ none ↦ "" | some en ↦ if runs_agent en then wf.policies.blocked_timeout else "" ],
)

unfoldable pub deadlines_for : Workflow → String → String × String
unfolding deadlines_of
deadlines_for wf state = elim (lookup state wf.states) [
  | none ↦ ("", "")
  | some st ↦ deadlines_of wf st
]

-- `writePlan`: what a row of a state, and a row of a cycle, shows.
pub record StateRow : Type 0 where
  pub name : String
  pub terminal : String
  pub merges : Bool
  pub wait_for : String
  pub leads_to : List String

pub record CycleRow : Type 0 where
  pub states : List String
  pub capped : Bool

unfoldable pub state_row : Workflow → String → StateRow
unfolding build_graph
state_row wf n = record {
  name = n;
  terminal = (state_of wf n).terminal;
  merges = is_side_effecting (state_of wf n);
  wait_for = (state_of wf n).wait_for;
  leads_to = next (build_graph wf) n;
}

-- `cycleBounded`.
unfoldable pub cycle_bounded : Workflow → List String → Bool
cycle_bounded wf [] = false
cycle_bounded wf (n ∷ ns) =
    let rest = cycle_bounded wf ns in
    if has_key n wf.policies.retry_caps
    then true
    else if has_timeout_transition (state_of wf n)
    then true
    else rest

unfoldable pub cycle_rows : Workflow → List String → List CycleRow
unfolding cycle_bounded
cycle_rows wf comp =
    note (is_cyclic (build_graph wf) comp)
      (record { states = sort_strings comp; capped = cycle_bounded wf comp })

unfoldable pub plan_states : Workflow → List StateRow
unfolding state_row
plan_states wf = gather (λ n. state_row wf n ∷ []) (sorted_keys wf.states)

unfoldable pub plan_cycles : Workflow → List CycleRow
unfolding cycle_rows
plan_cycles wf = gather (cycle_rows wf) (components (build_graph wf))
