-- ===== src/Engine/Gates.antt =====
-- internal/engine: gates over authoritative sources (engine.go) and decisions (decision.go).
use hounds_ciai.Prelude.{
  ℕ, String, Bool, true, false, not, Option, none, some, List, [], ◌∷◌, ◌==◌, string_eq, leb,
  if◌then◌else◌, contains, is_nonempty,
}
use hounds_ciai.Prelude.Maps.{lookup}
use hounds_ciai.Result.{undeclared, unsupported, no_transition, no_verdict, bad_verdict, gh_failed}
use hounds_ciai.Config.Types.{Gate, Transition, decision_ref, gate_refs}
use hounds_ciai.Store.{Task}
use hounds_ciai.Github.{PrStatus, checks_green}
use hounds_ciai.Engine.Monad.{
  World, Engine, M, find_pr, pr_status, read_verdict, Verdict, pure, raise, branch, get_task,
  set_task, from_result, or_raise, call, ◌>>=◌, ◌>>◌,
}

-- The snapshot that a gate sees before any was fetched; only `github_pr` is evaluated on it.
abbrev pub no_status : PrStatus
no_status = record {
  state = "";
  checks_total = 0;
  checks_failed = 0;
  checks_pending = 0;
  approved_reviews = 0;
  review_decision = "";
  mergeable = "";
  merge_state_status = "";
  head_sha = "";
}

abbrev pub status_or_none : Option PrStatus → PrStatus
status_or_none none = no_status
status_or_none (some s) = s

-- `require: clean` is stricter than freedom from conflicts.
unfoldable pub is_mergeable : Gate → PrStatus → Bool
is_mergeable g status =
    if g.require == "clean"
    then status.merge_state_status == "CLEAN"
    else status.mergeable == "MERGEABLE"

module _ {W : Type 0} (ext : World W) where
  -- The `github_pr` gate: a fresh lookup, which records the PR that it finds.
  unfoldable pub found_pr : Option ℕ → M W Bool
  found_pr none = pure false
  found_pr (some n) = do task ← get_task; set_task (record task { pr_number = some n }); pure true

  unfoldable pub pr_exists : M W Bool
  unfolding found_pr
  pr_exists = do
    task ← get_task
    r ← call ext (find_pr task.branch)
    pr ← from_result r
    found_pr pr

  -- The `github_commits` gate: with no baseline the question cannot be answered, and passes.
  unfoldable pub commits_moved : Task → PrStatus → M W Bool
  commits_moved task status = branch (task.state_entry_head == "") (pure true) (
      branch (status.head_sha == "") (raise gh_failed)
        (pure (not (status.head_sha == task.state_entry_head))))

  -- `gatePass`.
  unfoldable pub gate_pass : Gate → PrStatus → M W Bool
  unfolding pr_exists commits_moved
  gate_pass g status = branch (g.type == "github_pr") pr_exists (
      branch (g.type == "github_checks") (pure (checks_green status)) (
        branch (g.type == "github_reviews") (pure (leb g.min_approved status.approved_reviews)) (
          branch (g.type == "github_commits") (get_task >>= λ task. commits_moved task status) (
            branch (g.type == "github_mergeable") (pure (is_mergeable g status))
              (raise unsupported)))))

  -- The lazy, shared read of the PR's status: `none` when a merge gate has no PR to read.
  unfoldable pub fetch_for : Option ℕ → M W (Option PrStatus)
  fetch_for none = pure none
  fetch_for (some n) = do r ← call ext (pr_status n); s ← from_result r; pure (some s)

  -- Whether the gate can be evaluated, and on which snapshot.
  unfoldable pub need_status : Gate → Option PrStatus → M W (Option (Option PrStatus))
  unfolding fetch_for
  need_status g (some s) = pure (some (some s))
  need_status g none = branch (g.type == "github_pr") (pure (some none)) do
    task ← get_task
    s ← fetch_for task.pr_number
    pure (elim s [ none ↦ none | some s ↦ some (some s) ])

  unfoldable pub decide_gate : Gate → Option (Option PrStatus) → M W (Option (Option PrStatus))
  decide_gate g none = pure none
  decide_gate g (some status) =
      gate_pass g (status_or_none status) >>= λ pass. pure (if pass then some status else none)

  -- One gate of the loop: `none` is a failed evaluation, else the snapshot for the rest.
  unfoldable pub gate_round : Engine → String → Option PrStatus → M W (Option (Option PrStatus))
  unfolding need_status
  gate_round e name status = do
    g ← or_raise (lookup name e.wf.gates) undeclared
    need ← need_status g status
    decide_gate g need

  -- A failed gate ends the loop.
  unfoldable pub or_fail : (Option PrStatus → M W String) → Option (Option PrStatus) → M W String
  or_fail rest none = pure "fail"
  or_fail rest (some status) = rest status

  unfoldable pub eval_gates : Engine → List String → Option PrStatus → M W String
  eval_gates e [] status = pure "pass"
  eval_gates e (name ∷ names) status = gate_round e name status >>= or_fail (eval_gates e names)

  -- `evaluateGate`: "pass" iff every gate passes.
  unfoldable pub evaluate_gate : Engine → Transition → M W String
  unfolding eval_gates
  evaluate_gate e t = eval_gates e (gate_refs t) none

  -- `tryDecisionVerdict`: `none` while the verdict file is not there yet.
  unfoldable pub accept_verdict : List String → Option Verdict → M W (Option String)
  accept_verdict verdicts none = pure none
  accept_verdict verdicts (some v) =
      branch (contains verdicts v.verdict) (pure (some v.verdict)) (raise bad_verdict)

  unfoldable pub try_decision_verdict : Engine → String → M W (Option String)
  unfolding accept_verdict
  try_decision_verdict e name = do
    d ← or_raise (lookup name e.wf.decisions) undeclared
    branch (not (d.impl.type == "llm")) (raise unsupported) do
      task ← get_task
      r ← call ext (read_verdict task.id)
      v ← from_result r
      accept_verdict d.verdicts v

  -- `evaluateDecision`: the verdict must be there.
  unfoldable pub evaluate_decision : Engine → String → M W String
  evaluate_decision e name = do v ← try_decision_verdict e name; or_raise v no_verdict

  -- `evaluateDone`: a decision before gates, and one of them must be there.
  unfoldable pub evaluate_done : Engine → Transition → M W String
  evaluate_done e t =
      branch (not (decision_ref t == "")) (evaluate_decision e (decision_ref t))
        (branch (is_nonempty (gate_refs t)) (evaluate_gate e t) (raise no_transition))
