-- ===== src/Engine/Merging.antt =====
-- internal/engine/merge.go: the merge action, the one side effect on the repository.
use hounds_ciai.Prelude.{ℕ, String, not, Option, none, some, ◌==◌, string_eq}
use hounds_ciai.Result.{unsupported, no_pr, not_confirmed, no_transition}
use hounds_ciai.Config.Types.{State, Transition, dry_run_enabled}
use hounds_ciai.Engine.Monad.{
  World, Engine, M, merge, pr_status, close_issue, delete_remote_branch, pure, raise, branch,
  get_task, from_result, or_raise, call, ◌>>=◌, ◌>>◌,
}
use hounds_ciai.Engine.Lookup.{find_event_transition}

-- The values that `runState` returns: the next state, the trigger and its result.
pub record Outcome : Type 0 where
  pub next : String
  pub trigger : String
  pub result : String

module _ {W : Type 0} (ext : World W) where
  -- `settleMerged`: close the issue and drop the branch, both best effort.
  unfoldable pub settle_merged : M W (Unit {0})
  settle_merged = do
    task ← get_task
    call ext (close_issue task.issue)
    call ext (delete_remote_branch task.branch)
    pure tt

  -- The merge itself, confirmed against GitHub: a merge that is only queued is no merge.
  unfoldable pub merge_open_pr : ℕ → M W (Unit {0})
  merge_open_pr pr = do
    r ← call ext (merge pr)
    from_result r
    s ← call ext (pr_status pr)
    status ← from_result s
    branch (not (status.state == "MERGED")) (raise not_confirmed) (pure tt)

  -- A PR that an earlier run already merged is not merged again.
  unfoldable pub ensure_merged : ℕ → M W (Unit {0})
  ensure_merged pr = do
    r ← call ext (pr_status pr)
    status ← from_result r
    branch (not (status.state == "MERGED")) (merge_open_pr pr) (pure tt)

  unfoldable pub fire_merged : Option Transition → M W Outcome
  fire_merged none = raise no_transition
  fire_merged (some t) = do
    settle_merged
    pure (record { next = t.to; trigger = "pr.merged"; result = "" })

  unfoldable pub merge_pr_action : Engine → State → ℕ → M W Outcome
  merge_pr_action e st pr =
      branch (dry_run_enabled e.wf.policies)
        (pure (record { next = ""; trigger = "dry_run"; result = "would_merge" }))
        (ensure_merged pr >> fire_merged (find_event_transition st "pr.merged"))

  -- `runMergeAction`.
  unfoldable pub run_merge_action : Engine → State → String → M W Outcome
  run_merge_action e st action =
      branch (not (action == "merge_pr")) (raise unsupported)
        (get_task >>= λ task. or_raise task.pr_number no_pr >>= λ pr. merge_pr_action e st pr)
