-- ===== src/Doctor.antt =====
-- internal/doctor/doctor.go: the list of checks, and how a preflight runs them.
pub mod Outside
pub mod Checks
pub mod Rules
pub mod Asking
pub mod Laws
pub mod Secrets
use hounds_ciai.Prelude.{ℕ, suc, String, Bool, true, false, not, ◌&&◌, List, [], ◌∷◌, if◌then◌else◌}
use hounds_ciai.Doctor.Outside.{
  Status, pass, warn, fail, skip, CheckResult, skipped, Env, with_defaults, Host, Session, D, pure,
  ◌>>=◌, choose,
}
use hounds_ciai.Doctor.Checks.{
  check_config, check_herdr_binary, check_herdr_server, check_agent_binary,
}
use hounds_ciai.Doctor.Checks.Github.{
  check_gh_auth, check_gh_token_env, check_gh_repo, check_gh_label,
}
use hounds_ciai.Doctor.Checks.Repository.{
  check_repo_checkout, check_base_branch, check_base_current, check_worktrees_dir,
}
use hounds_ciai.Doctor.Checks.Delivery.{check_store, check_kickoff_delivery}

pub record PreflightCheck (W : Type 0) : Type 0 where
  pub name : String
  pub expensive : Bool
  pub run : Env → D W CheckResult

abbrev cheap : {W : Type 0} → String → (Env → D W CheckResult) → PreflightCheck W
cheap name run = record { name = name; expensive = false; run = run }

-- `Failed`.
unfoldable pub is_fail : Status → Bool
is_fail fail = true
is_fail _ = false

unfoldable pub any_failed : List CheckResult → Bool
unfolding is_fail
any_failed [] = false
any_failed (r ∷ rs) = if is_fail r.status then true else any_failed rs

-- `Counts`, of which a summary reads the four numbers.
pub record Counts : Type 0 where
  pub passes : ℕ
  pub warnings : ℕ
  pub failures : ℕ
  pub skips : ℕ

unfoldable pub counted : Status → Counts → Counts
counted pass c = record c { passes = suc c.passes }
counted warn c = record c { warnings = suc c.warnings }
counted fail c = record c { failures = suc c.failures }
counted skip c = record c { skips = suc c.skips }

unfoldable pub count_statuses : List CheckResult → Counts
unfolding counted
count_statuses [] = record { passes = 0; warnings = 0; failures = 0; skips = 0 }
count_statuses (r ∷ rs) = counted r.status (count_statuses rs)

module _ {W : Type 0} (host : Host W) where
  -- `Checks`.
  unfoldable pub all_checks : List (PreflightCheck W)
  all_checks =
      cheap "config" (check_config host)
      ∷ cheap "herdr-binary" (check_herdr_binary host)
      ∷ cheap "herdr-server" (check_herdr_server host)
      ∷ cheap "agent-binary" (check_agent_binary host)
      ∷ cheap "gh-auth" (check_gh_auth host)
      ∷ cheap "gh-token-env" (check_gh_token_env host)
      ∷ cheap "gh-repo" (check_gh_repo host)
      ∷ cheap "gh-label" (check_gh_label host)
      ∷ cheap "repo-checkout" (check_repo_checkout host)
      ∷ cheap "repo-base-branch" (check_base_branch host)
      ∷ cheap "repo-base-current" (check_base_current host)
      ∷ cheap "worktrees-dir" (check_worktrees_dir host)
      ∷ cheap "store" (check_store host)
      ∷ record { name = "kickoff-delivery"; expensive = true; run = check_kickoff_delivery host }
      ∷ []

  -- One round of the loop of `Run`.
  unfoldable pub run_check : Bool → Env → PreflightCheck W → D W CheckResult
  run_check include_expensive env c s =
      if c.expensive && not include_expensive
      then pure
          (skipped c.name
            "launches an agent; run `orchestratord doctor` without --quick to include it")
          s
      else if host.cancelled s.world
      then pure (skipped c.name "cancelled") s
      else c.run env s

  unfoldable pub run_all : Bool → Env → List (PreflightCheck W) → D W (List CheckResult)
  unfolding run_check
  run_all include_expensive env [] = pure []
  run_all include_expensive env (c ∷ cs) = run_check include_expensive env c >>= λ r.
      run_all include_expensive env cs >>= λ rs. pure (r ∷ rs)

  -- `Run`.
  unfoldable pub run_checks : Bool → Env → D W (List CheckResult)
  unfolding run_all all_checks with_defaults
  run_checks include_expensive env = run_all include_expensive (with_defaults env) all_checks
