-- ===== src/Doctor/Checks/Repository.antt =====
-- internal/doctor/checks.go: the checks of the local checkout and of the worktrees' directory.
use hounds_ciai.Prelude.{
  suc, String, ◌&&◌, Option, none, some, [], ◌∷◌, ◌==◌, string_eq, if◌then◌else◌,
}
use Prim.Native.String.{◌++◌ as text_append}
use hounds_ciai.Engine.Naming.{decimal}
use hounds_ciai.Doctor.Outside.{
  CheckResult, passed, warned, failed, skipped, Env, process, make_dir, try_file, Count, natural,
  Host, D, pure, ◌>>=◌, ask, choose, either, texts,
}
use hounds_ciai.Doctor.Checks.{first_line}

module _ {W : Type 0} (host : Host W) where
  unfoldable pub check_repo_checkout : Env → D W CheckResult
  check_repo_checkout env =
      choose (env.repo_dir == "") (pure (skipped "repo-checkout" "no --repo given")) (
        ask host (process env.repo_dir (env.git_bin ∷ "rev-parse" ∷ "--is-inside-work-tree" ∷ []))
        >>= either
            (λ why. pure (
              failed "repo-checkout" (texts (env.repo_dir ∷ " is not a git checkout: " ∷ why ∷ []))
                "point --repo at a local clone of the source repo"))
            (λ out. pure (passed "repo-checkout" env.repo_dir)))

  unfoldable pub check_base_branch : Env → D W CheckResult
  check_base_branch env =
      choose (env.repo_dir == "") (pure (skipped "repo-base-branch" "no --repo given")) (
        ask host (
          process env.repo_dir
            (env.git_bin ∷ "rev-parse" ∷ "--verify" ∷ text_append "refs/heads/" env.base ∷ []))
        >>= either
            (λ why. pure (
              failed "repo-base-branch"
                (texts ("base branch " ∷ host.quoted env.base ∷ " does not exist locally" ∷ []))
                (texts (
                  "check out " ∷ env.base
                  ∷ ", or pass --base with the branch task worktrees should fork from" ∷ []))))
            (λ out. pure (passed "repo-base-branch" env.base)))

  -- What `git rev-list --count` printed, as the number of commits that the base lacks.
  unfoldable pub count_verdict : Env → String → Option Count → CheckResult
  count_verdict env line none =
      warned "repo-base-current" (texts ("unexpected rev-list output " ∷ host.quoted line ∷ []))
        "verify by hand that the base branch is current"
  count_verdict env line (some (natural (suc n))) =
      warned "repo-base-current"
        (texts (env.base ∷ " is " ∷ decimal (suc n) ∷ " commit(s) behind origin/" ∷ env.base ∷ []))
        (texts (
          "`git -C " ∷ env.repo_dir
          ∷ " pull` — task worktrees fork from the local base, so agents would build on stale code"
          ∷ []))
  count_verdict env line (some _) =
      passed "repo-base-current" (texts (env.base ∷ " is up to date with origin" ∷ []))

  unfoldable pub compare_base : Env → D W CheckResult
  unfolding first_line count_verdict
  compare_base env =
      ask host (
        process env.repo_dir (
          env.git_bin
          ∷ "rev-list"
          ∷ "--count"
          ∷ texts (env.base ∷ "..origin/" ∷ env.base ∷ [])
          ∷ []))
      >>= either
          (λ why. pure (
            warned "repo-base-current"
              (texts ("could not compare " ∷ env.base ∷ " to origin/" ∷ env.base ∷ ": " ∷ why ∷ []))
              "verify by hand that the base branch is current"))
          (λ out. pure (count_verdict env (first_line host out) (host.atoi (first_line host out))))

  unfoldable pub check_base_current : Env → D W CheckResult
  unfolding compare_base
  check_base_current env =
      choose (env.repo_dir == "") (pure (skipped "repo-base-current" "no --repo given")) (
        ask host
          (process env.repo_dir (env.git_bin ∷ "fetch" ∷ "--quiet" ∷ "origin" ∷ env.base ∷ []))
        >>= either
            (λ why. pure (
              warned "repo-base-current"
                (texts ("could not fetch origin/" ∷ env.base ∷ ": " ∷ why ∷ []))
                "check network/remote access; task worktrees fork from the local base branch"))
            (λ out. compare_base env))

  -- The worktrees' directory, or the repo's parent, which the backend takes in its place.
  unfoldable pub worktrees_of : Env → String
  worktrees_of env = if env.worktrees_dir == "" then host.dir_of env.repo_dir else env.worktrees_dir

  unfoldable pub check_worktrees_dir : Env → D W CheckResult
  unfolding worktrees_of
  check_worktrees_dir env =
      let dir = worktrees_of env in
      choose (env.worktrees_dir == "" && env.repo_dir == "")
        (pure (skipped "worktrees-dir" "no --repo or --worktrees-dir given"))
        (ask host (make_dir dir)
          >>= either
              (λ why. pure (
                failed "worktrees-dir" (texts ("cannot create " ∷ dir ∷ ": " ∷ why ∷ []))
                  "point --worktrees-dir at a writable directory"))
              (λ made.
                ask host (try_file dir)
                >>= either
                    (λ why. pure (
                      failed "worktrees-dir" (texts (dir ∷ " is not writable: " ∷ why ∷ []))
                        "point --worktrees-dir at a writable directory; every task gets its own worktree there"))
                    (λ name. pure (passed "worktrees-dir" dir))))
