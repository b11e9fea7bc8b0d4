-- ===== src/Config/Validate/Edges.antt =====
-- internal/config/validate.go: the checks of single states, transitions and gates.
use hounds_ciai.Prelude.{
  ℕ, suc, String, Bool, true, false, not, ◌&&◌, ◌||◌, Option, none, some, List, [], ◌∷◌, ◌++◌, ◌==◌,
  nat_eq, string_eq, if◌then◌else◌, is_nonempty, length, all, contains, gather, note,
}
use hounds_ciai.Prelude.Maps.{has_key}
use hounds_ciai.Prelude.Sorting.{sort_strings}
use hounds_ciai.Config.Types.{
  Transition, State, Workflow, state_of, gate_of, decision_of, sorted_keys, decision_ref, gate_refs,
  targets,
}
use hounds_ciai.Config.Graph.{is_side_effecting}
use hounds_ciai.Config.Validate.Messages.{
  Fault, unknown_spawn, unknown_resume, unknown_decision, unknown_gate, unknown_target,
  uncovered_verdicts, not_pass_fail, stray_branch, missing_branch, not_authoritative, bad_anchor,
  ungated,
}

-- `authoritativeGateTypes` and `commitsGateSince`.
unfoldable pub authoritative : String → Bool
authoritative t =
    contains
      ("github_pr" ∷ "github_checks" ∷ "github_reviews" ∷ "github_mergeable" ∷ "github_commits"
        ∷ [])
      t

abbrev pub commits_gate_since : String → Bool
commits_gate_since s = s == "state_entry"

-- The set of a list's members, each once.
unfoldable pub distinct : List String → List String
distinct [] = []
distinct (x ∷ xs) = let rest = distinct xs in if contains rest x then rest else x ∷ rest

-- `sameSet`.
unfoldable pub same_set : List String → List String → Bool
unfolding distinct
same_set a b =
    length (distinct a) == length (distinct b) && all (contains (distinct b)) (distinct a)

unfoldable pub check_role : Workflow → String → (String → Fault) → List Fault
check_role wf role fault = note (not (role == "") && not (has_key role wf.roles)) (fault role)

-- `checkEntryRoles`.
unfoldable pub check_entry_roles : Workflow → String → State → List Fault
unfolding check_role
check_entry_roles wf sname s = elim s.entry [
  | none ↦ []
  | some en ↦
      check_role wf en.spawn (unknown_spawn sname) ++ check_role wf en.resume (unknown_resume sname)
]

abbrev is_none {ℓ} : {A : Type ℓ} → Option A → Bool
is_none none = true
is_none (some a) = false

-- The `switch` of `checkTransition`.
unfoldable pub check_branch : Workflow → String → ℕ → Transition → List Fault
unfolding same_set
check_branch wf sname i t =
    let dec = decision_ref t in
    let ks = sorted_keys t.branch in
    if is_nonempty t.branch
    then (if not (dec == "")
        then note (not (same_set ks (decision_of wf dec).verdicts))
            (uncovered_verdicts sname i ks (sort_strings (decision_of wf dec).verdicts))
        else if is_nonempty (gate_refs t)
        then note (not (same_set ks ("pass" ∷ "fail" ∷ []))) (not_pass_fail sname i ks)
        else stray_branch sname i ∷ [])
    else note ((not (dec == "") || is_nonempty (gate_refs t)) && is_none t.action)
        (missing_branch sname i)

-- `checkTransition`.
unfoldable pub check_transition : Workflow → String → ℕ → Transition → List Fault
unfolding check_branch
check_transition wf sname i t =
    note (not (decision_ref t == "") && not (has_key (decision_ref t) wf.decisions))
      (unknown_decision sname i (decision_ref t))
    ++ (gather (λ g. note (not (has_key g wf.gates)) (unknown_gate sname i g)) (gate_refs t)
        ++ (gather (λ n. note (not (has_key n wf.states)) (unknown_target sname i n)) (targets t)
            ++ check_branch wf sname i t))

-- A loop over a state's transitions, with their indices.
unfoldable pub each_transition : (ℕ → Transition → List Fault) → ℕ → List Transition → List Fault
each_transition check i [] = []
each_transition check i (t ∷ ts) = check i t ++ each_transition check (suc i) ts

unfoldable pub check_state : Workflow → String → List Fault
unfolding check_entry_roles check_transition each_transition
check_state wf n =
    check_entry_roles wf n (state_of wf n)
    ++ each_transition (check_transition wf n) 0 (state_of wf n).transitions

-- The two loops over the gates.
unfoldable pub check_gate : Workflow → String → List Fault
unfolding authoritative
check_gate wf n =
    note (not (authoritative (gate_of wf n).type)) (not_authoritative n (gate_of wf n).type)

unfoldable pub check_anchor : Workflow → String → List Fault
check_anchor wf n =
    note ((gate_of wf n).type == "github_commits" && not (commits_gate_since (gate_of wf n).since))
      (bad_anchor n (gate_of wf n).since)

-- `checkMergeGated`: `side` is the set of the states that a merge enters.
unfoldable pub in_side : Workflow → String → Bool
in_side wf n = has_key n wf.states && is_side_effecting (state_of wf n)

unfoldable pub check_ungated : Workflow → String → ℕ → Transition → List Fault
unfolding in_side
check_ungated wf sname i t =
    if is_nonempty (gate_refs t)
    then []
    else gather (λ n. note (in_side wf n) (ungated sname i n)) (targets t)

unfoldable pub check_merge_gated : Workflow → String → List Fault
unfolding check_ungated each_transition
check_merge_gated wf n = each_transition (check_ungated wf n) 0 (state_of wf n).transitions
