-- ===== src/Doctor/Checks/Github.antt =====
-- internal/doctor/checks.go: the checks of gh, of its account and of the source repository.
use hounds_ciai.Prelude.{
  String, not, ◌||◌, none, some, List, [], ◌∷◌, ◌==◌, string_eq, if◌then◌else◌, contains, filter,
}
use hounds_ciai.Doctor.Outside.{
  CheckResult, passed, warned, failed, skipped, Env, process, error, given, Host, D, pure, ◌>>=◌,
  ask, choose, either, texts, join_with,
}

-- The names of the token variables that are set.
unfoldable pub tokens_set : (String → String) → List String → List String
tokens_set getenv vars = filter (λ v. not (getenv v == "")) vars

module _ {W : Type 0} (host : Host W) where
  unfoldable pub check_gh_auth : Env → D W CheckResult
  check_gh_auth env = elim (env.look_path env.gh_bin) [
    | none ↦ pure (
        failed "gh-auth" (texts (host.quoted env.gh_bin ∷ " not on PATH" ∷ []))
          "install the GitHub CLI")
    | some path ↦
        ask host (process "" (env.gh_bin ∷ "auth" ∷ "status" ∷ []))
        >>= either (λ why. pure (failed "gh-auth" "gh is not authenticated" "run `gh auth login`"))
            (λ out. pure (passed "gh-auth" "authenticated"))
  ]

  unfoldable pub tokens_verdict : List String → CheckResult
  tokens_verdict [] =
      passed "gh-token-env" "no token in the environment; gh will use its stored OAuth credentials"
  tokens_verdict (v ∷ vs) =
      warned "gh-token-env" (texts (join_with ", " (v ∷ vs) ∷ " set in the environment" ∷ []))
        "the daemon scrubs these for its own gh calls, but spawned agents inherit them; unset them unless an agent needs one"

  unfoldable pub check_gh_token_env : Env → D W CheckResult
  unfolding tokens_verdict tokens_set
  check_gh_token_env env =
      pure (tokens_verdict (tokens_set env.getenv ("GITHUB_TOKEN" ∷ "GH_TOKEN" ∷ [])))

  unfoldable pub check_gh_repo : Env → D W CheckResult
  check_gh_repo env =
      choose (env.repo_slug == "")
        (pure (skipped "gh-repo" "no source repo declared in the workflow"))
        (ask host (
            process env.repo_dir
              (env.gh_bin ∷ "repo" ∷ "view" ∷ env.repo_slug ∷ "--json" ∷ "nameWithOwner" ∷ []))
          >>= either
              (λ why. pure (
                failed "gh-repo" (texts ("cannot read " ∷ env.repo_slug ∷ ": " ∷ why ∷ []))
                  "check the repo slug in the workflow's sources, and that your gh account can see it"))
              (λ out. pure (passed "gh-repo" env.repo_slug)))

  unfoldable pub label_verdict : Env → List String → CheckResult
  label_verdict env labels =
      if contains labels env.label
      then passed "gh-label" (texts (host.quoted env.label ∷ " exists on " ∷ env.repo_slug ∷ []))
      else warned "gh-label"
          (texts (host.quoted env.label ∷ " does not exist on " ∷ env.repo_slug ∷ []))
          (texts (
            "create it (`gh label create " ∷ env.label ∷ " --repo " ∷ env.repo_slug
            ∷ "`) or the daemon will poll forever and find nothing" ∷ []))

  unfoldable pub check_gh_label : Env → D W CheckResult
  unfolding label_verdict
  check_gh_label env =
      choose (env.label == "" || env.repo_slug == "")
        (pure (skipped "gh-label" "no source label declared"))
        (ask host (
            process env.repo_dir
              (env.gh_bin ∷ "label" ∷ "list" ∷ "--repo" ∷ env.repo_slug ∷ "--json" ∷ "name" ∷ []))
          >>= either
              (λ why. pure (
                warned "gh-label" (texts ("could not list labels: " ∷ why ∷ []))
                  "verify by hand that the source label exists on the repo"))
              (λ out. elim (host.labels_of out) [
                | error why ↦ pure (
                    warned "gh-label" (texts ("could not parse the label list: " ∷ why ∷ []))
                      "verify the label by hand")
                | given labels ↦ pure (label_verdict env labels)
              ]))
