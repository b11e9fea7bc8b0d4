-- ===== src/Doctor/Laws.antt =====
-- internal/doctor/doctor.go: what a whole preflight asks and reports.
use hounds_ciai.Prelude.{
  Bool, true, false, not, ◌&&◌, ◌≡◌, List, [], ◌∷◌, string_eq, In, Bool-cases, inl, inr, arith,
}
use hounds_ciai.Doctor.Outside.{CheckResult, Env, with_defaults, Probe, Host, Session, pure}
use hounds_ciai.Doctor.Rules.{Reports, Meets, Meets-pure, Meets-bind, skipped-Reports}
use hounds_ciai.Doctor.Asking.{
  Allowed, Fine, check_config-Fine, check_herdr_binary-Fine, check_herdr_server-Fine,
  check_agent_binary-Fine,
}
use hounds_ciai.Doctor.Asking.Github.{
  check_gh_auth-Fine, check_gh_token_env-Fine, check_gh_repo-Fine, check_gh_label-Fine,
}
use hounds_ciai.Doctor.Asking.Repository.{
  check_repo_checkout-Fine, check_base_branch-Fine, check_base_current-Fine,
  check_worktrees_dir-Fine,
}
use hounds_ciai.Doctor.Asking.Delivery.{check_store-Fine, check_kickoff_delivery-Fine}
use hounds_ciai.Doctor.{PreflightCheck, all_checks, run_check, run_all, run_checks}

-- One report for each check, in their order.
abbrev pub Tallies : {W : Type 0} → List (PreflightCheck W) → List CheckResult → Type 0
Tallies [] [] = Unit
Tallies [] (r ∷ rs) = ⊥
Tallies (c ∷ cs) [] = ⊥
Tallies (c ∷ cs) (r ∷ rs) = Reports c.name r × Tallies cs rs

module _ {W : Type 0} (host : Host W) (include : Bool) (env : Env) where
  -- A check that is fine wherever it is run.
  abbrev Runs : PreflightCheck W → Type 0
  Runs c = (c.expensive && not include) ≡ false → Fine host include env c.name (c.run env)

  abbrev AllRun : List (PreflightCheck W) → Type 0
  AllRun [] = Unit
  AllRun (c ∷ cs) = Runs c × AllRun cs

  run_check-Fine :
      (c : PreflightCheck W) → Runs c → Fine host include env c.name (run_check host include env c)
  unfolding run_check pure
  run_check-Fine c h = record {
    asks = λ s p. elim (Bool-cases (c.expensive && not include)) [
      | inl e ↦ rw e (λ i. inl i)
      | inr e ↦ rw e (elim (Bool-cases (host.cancelled s.world)) [
        | inl d ↦ rw d (λ i. inl i)
        | inr d ↦ rw d ((h e).asks s p)
      ])
    ];
    answers = λ s. elim (Bool-cases (c.expensive && not include)) [
      | inl e ↦ rw e (skipped-Reports _ _)
      | inr e ↦ rw e (elim (Bool-cases (host.cancelled s.world)) [
        | inl d ↦ rw d (skipped-Reports _ _)
        | inr d ↦ rw d ((h e).answers s)
      ])
    ];
  }

  run_all-Fine :
      (cs : List (PreflightCheck W))
      → AllRun cs
      → Meets host (Allowed host include env) (Tallies cs) (run_all host include env cs)
  unfolding run_all
  run_all-Fine [] h = Meets-pure host _ _ tt
  run_all-Fine (c ∷ cs) (h, hs) = Meets-bind host _ (Reports c.name) _ _ (run_check-Fine c h) λ r q.
      Meets-bind host _ (Tallies cs) _ _ (run_all-Fine cs hs) λ rs qs. Meets-pure host _ _ (q, qs)

  all_checks-AllRun : AllRun (all_checks host)
  unfolding all_checks
  all_checks-AllRun = (
    λ _. check_config-Fine host include env,
    (
      λ _. check_herdr_binary-Fine host include env,
      (
        λ _. check_herdr_server-Fine host include env,
        (
          λ _. check_agent_binary-Fine host include env,
          (
            λ _. check_gh_auth-Fine host include env,
            (
              λ _. check_gh_token_env-Fine host include env,
              (
                λ _. check_gh_repo-Fine host include env,
                (
                  λ _. check_gh_label-Fine host include env,
                  (
                    λ _. check_repo_checkout-Fine host include env,
                    (
                      λ _. check_base_branch-Fine host include env,
                      (
                        λ _. check_base_current-Fine host include env,
                        (
                          λ _. check_worktrees_dir-Fine host include env,
                          (
                            λ _. check_store-Fine host include env,
                            (λ e. check_kickoff_delivery-Fine host include env (included e), tt),
                          ),
                        ),
                      ),
                    ),
                  ),
                ),
              ),
            ),
          ),
        ),
      ),
    ),
  )
    where
      included : (true && not include) ≡ false → include ≡ true
      included e = ground (arith, e)

  pub preflight-Meets :
      Meets host
        (Allowed host include env)
        (Tallies (all_checks host))
        (run_all host include env (all_checks host))
  preflight-Meets = run_all-Fine (all_checks host) all_checks-AllRun

module _ {W : Type 0} (host : Host W) (include : Bool) (env : Env) (world : W) where
  abbrev fresh : Session W
  fresh = record { world = world; trace = [] }

  -- Whatever the outside answers, a preflight asks only this: to read the config, to run the nine
  -- commands of its checks, of which the fetch of the base alone writes, to make and try the worktrees'
  -- directory, and to open, list and close the store. To launch an agent, and to make and remove a
  -- scratch directory, it asks only when the expensive checks are included.
  pub run_checks-Allowed :
      (p : Probe)
      → In p (run_checks host include env fresh).1.trace
      → Allowed host include (with_defaults env) p
  unfolding run_checks
  run_checks-Allowed p i =
      elim ((preflight-Meets host include (with_defaults env)).asks fresh p i) [
        | inl j ↦ elim j [ ]
        | inr h ↦ h
      ]

  -- Whatever the outside answers, a preflight reports once on each check, in the checks' order, and a
  -- report comes with a fix exactly when it is a warning or a failure.
  pub run_checks-Tallies : Tallies (all_checks host) (run_checks host include env fresh).0
  unfolding run_checks
  run_checks-Tallies = (preflight-Meets host include (with_defaults env)).answers fresh
