-- ===== src/Doctor/Asking/Github.antt =====
-- internal/doctor/checks.go: what the checks of gh ask and report.
use hounds_ciai.Prelude.{
  String, Bool, refl, List, [], ◌∷◌, here, there, string_eq, Bool-cases, inl, inr, contains,
}
use hounds_ciai.Doctor.Outside.{Env, error, given, Host, pure, texts, warned}
use hounds_ciai.Doctor.Checks.Github.{
  check_gh_auth, tokens_verdict, check_gh_token_env, check_gh_repo, label_verdict, check_gh_label,
}
use hounds_ciai.Doctor.Rules.{
  Reports, passed-Reports, warned-Reports, failed-Reports, Meets-pure, Meets-choose, Meets-ask,
}
use hounds_ciai.Doctor.Asking.{texts-nonempty, Fine, skips, found_first}

module _ {W : Type 0} (host : Host W) (include : Bool) (env : Env) where
  pub check_gh_auth-Fine : Fine host include env "gh-auth" (check_gh_auth host env)
  unfolding check_gh_auth
  check_gh_auth-Fine =
      found_first host include env _ (env.look_path env.gh_bin)
        (Meets-pure host _ _ (failed-Reports _ _ _ refl))
        λ path.
          Meets-ask host _ _ (there (there here))
            (λ why. Meets-pure host _ _ (failed-Reports _ _ _ refl))
            λ out. Meets-pure host _ _ (passed-Reports _ _)

  tokens_verdict-Reports : (vs : List String) → Reports "gh-token-env" (tokens_verdict host vs)
  unfolding tokens_verdict
  tokens_verdict-Reports [] = passed-Reports _ _
  tokens_verdict-Reports (v ∷ vs) = warned-Reports _ _ _ refl

  pub check_gh_token_env-Fine : Fine host include env "gh-token-env" (check_gh_token_env host env)
  unfolding check_gh_token_env
  check_gh_token_env-Fine = Meets-pure host _ _ (tokens_verdict-Reports _)

  pub check_gh_repo-Fine : Fine host include env "gh-repo" (check_gh_repo host env)
  unfolding check_gh_repo
  check_gh_repo-Fine =
      Meets-choose host _ _ (λ _. skips host include env _ _)
        λ _.
          Meets-ask host _ _ (there (there (there here)))
            (λ why. Meets-pure host _ _ (failed-Reports _ _ _ refl))
            λ out. Meets-pure host _ _ (passed-Reports _ _)

  label_verdict-Reports :
      (labels : List String) → Reports "gh-label" (label_verdict host env labels)
  unfolding label_verdict
  label_verdict-Reports labels = elim (Bool-cases (contains labels env.label)) [
    | inl e ↦ rw (e, label_verdict) (passed-Reports _ _)
    | inr e ↦ rw (e, label_verdict) (warned-Reports _ _ _ (texts-nonempty _ _ refl))
  ]

  pub check_gh_label-Fine : Fine host include env "gh-label" (check_gh_label host env)
  unfolding check_gh_label
  check_gh_label-Fine =
      Meets-choose host _ _ (λ _. skips host include env _ _)
        λ _.
          Meets-ask host _ _ (there (there (there (there here))))
            (λ why. Meets-pure host _ _ (warned-Reports _ _ _ refl))
            λ out.
              elim (host.labels_of out)
                as (λ r. Fine host include env "gh-label" (elim r [
                  | error why ↦ pure (
                      warned "gh-label" (texts ("could not parse the label list: " ∷ why ∷ []))
                        "verify the label by hand")
                  | given labels ↦ pure (label_verdict host env labels)
                ])) [
                  | error why ↦ Meets-pure host _ _ (warned-Reports _ _ _ refl)
                  | given labels ↦ Meets-pure host _ _ (label_verdict-Reports labels)
                ]
