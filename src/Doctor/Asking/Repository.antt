-- ===== src/Doctor/Asking/Repository.antt =====
-- internal/doctor/checks.go: what the checks of the checkout and of the worktrees ask and report.
use hounds_ciai.Prelude.{zero, suc, String, Bool, refl, here, there, string_eq, Option, none, some}
use hounds_ciai.Doctor.Outside.{Env, make_dir, try_file, Count, below, natural, Host}
use hounds_ciai.Doctor.Checks.Repository.{
  check_repo_checkout, check_base_branch, count_verdict, compare_base, check_base_current,
  worktrees_of, check_worktrees_dir,
}
use hounds_ciai.Doctor.Rules.{
  Reports, passed-Reports, warned-Reports, failed-Reports, Meets-pure, Meets-choose, Meets-ask,
}
use hounds_ciai.Doctor.Asking.{texts-nonempty, Fine, skips}

module _ {W : Type 0} (host : Host W) (include : Bool) (env : Env) where
  pub check_repo_checkout-Fine :
      Fine host include env "repo-checkout" (check_repo_checkout host env)
  unfolding check_repo_checkout
  check_repo_checkout-Fine =
      Meets-choose host _ _ (λ _. skips host include env _ _)
        λ _.
          Meets-ask host _ _ (there (there (there (there (there here)))))
            (λ why. Meets-pure host _ _ (failed-Reports _ _ _ refl))
            λ out. Meets-pure host _ _ (passed-Reports _ _)

  pub check_base_branch-Fine : Fine host include env "repo-base-branch" (check_base_branch host env)
  unfolding check_base_branch
  check_base_branch-Fine =
      Meets-choose host _ _ (λ _. skips host include env _ _)
        λ _.
          Meets-ask host _ _ (there (there (there (there (there (there here))))))
            (λ why. Meets-pure host _ _ (failed-Reports _ _ _ (texts-nonempty _ _ refl)))
            λ out. Meets-pure host _ _ (passed-Reports _ _)

  count_verdict-Reports :
      (line : String) (c : Option Count)
      → Reports "repo-base-current" (count_verdict host env line c)
  unfolding count_verdict
  count_verdict-Reports line none = warned-Reports _ _ _ refl
  count_verdict-Reports line (some (natural (suc n))) =
      warned-Reports _ _ _ (texts-nonempty _ _ refl)
  count_verdict-Reports line (some (natural zero)) = passed-Reports _ _
  count_verdict-Reports line (some (below n)) = passed-Reports _ _

  pub check_base_current-Fine :
      Fine host include env "repo-base-current" (check_base_current host env)
  unfolding check_base_current compare_base
  check_base_current-Fine =
      Meets-choose host _ _ (λ _. skips host include env _ _)
        λ _.
          Meets-ask host _ _ (there (there (there (there (there (there (there here)))))))
            (λ why. Meets-pure host _ _ (warned-Reports _ _ _ refl))
            λ out.
              Meets-ask host _ _
                (there (there (there (there (there (there (there (there here))))))))
                (λ why. Meets-pure host _ _ (warned-Reports _ _ _ refl))
                λ counted. Meets-pure host _ _ (count_verdict-Reports _ _)

  pub check_worktrees_dir-Fine :
      Fine host include env "worktrees-dir" (check_worktrees_dir host env)
  unfolding check_worktrees_dir
  check_worktrees_dir-Fine =
      Meets-choose host _ _ (λ _. skips host include env _ _)
        λ _.
          Meets-ask host _ (make_dir (worktrees_of host env)) refl
            (λ why. Meets-pure host _ _ (failed-Reports _ _ _ refl))
            λ made.
              Meets-ask host _ (try_file (worktrees_of host env)) refl
                (λ why. Meets-pure host _ _ (failed-Reports _ _ _ refl))
                λ name. Meets-pure host _ _ (passed-Reports _ _)
