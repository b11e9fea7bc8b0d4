-- ===== src/Doctor/Asking/Delivery.antt =====
-- internal/doctor/checks.go: what the checks of the store and of the kickoff ask and report.
use hounds_ciai.Prelude.{String, Bool, true, ◌≡◌, refl, List, string_eq}
use hounds_ciai.Doctor.Outside.{
  Env, open_store, list_store, close_store, make_temp, remove_all, smoke, Host,
}
use hounds_ciai.Doctor.Checks.Delivery.{
  read_tasks, check_store, smoke_in, smoke_scratch, check_kickoff_delivery, smoke_kickoff_text,
}
use hounds_ciai.Doctor.Rules.{
  Reports, passed-Reports, failed-Reports, Meets-pure, Meets-choose, Meets-bind, Meets-ask,
  Meets-last,
}
use hounds_ciai.Doctor.Asking.{Fine, skips}

module _ {W : Type 0} (host : Host W) (include : Bool) (env : Env) where
  pub check_store-Fine : Fine host include env "store" (check_store host env)
  unfolding check_store read_tasks
  check_store-Fine =
      Meets-choose host _ _ (λ _. skips host include env _ _)
        λ _.
          Meets-ask host _ (open_store env.db_path) refl
            (λ why. Meets-pure host _ _ (failed-Reports _ _ _ refl))
            λ opened.
              Meets-bind host _ (Reports "store") _ _
                (Meets-ask host _ (list_store env.db_path) refl
                  (λ why. Meets-pure host _ _ (failed-Reports _ _ _ refl))
                  λ rows. Meets-pure host _ _ (passed-Reports _ _))
                λ r h. Meets-last host _ (close_store env.db_path) r refl h

  module _ (included : include ≡ true) where
    smoke_in-Fine :
        (dir : String) (launch : List String)
        → Fine host include env "kickoff-delivery" (smoke_in host dir launch)
    unfolding smoke_in
    smoke_in-Fine dir launch =
        Meets-ask host _ (smoke dir launch smoke_kickoff_text) included
          (λ why. Meets-pure host _ _ (failed-Reports _ _ _ refl))
          λ out. Meets-pure host _ _ (passed-Reports _ _)

    pub check_kickoff_delivery-Fine :
        Fine host include env "kickoff-delivery" (check_kickoff_delivery host env)
    unfolding check_kickoff_delivery smoke_scratch
    check_kickoff_delivery-Fine =
        Meets-choose host _ _ (λ _. skips host include env _ _)
          λ _.
            Meets-choose host _ _ (λ _. skips host include env _ _)
              λ _.
                Meets-choose host _ _
                  (λ _.
                    Meets-ask host _ make_temp included
                      (λ why. Meets-pure host _ _ (failed-Reports _ _ _ refl))
                      λ dir.
                        Meets-bind host _ (Reports "kickoff-delivery") _ _ (smoke_in-Fine dir _)
                          λ r h. Meets-last host _ (remove_all dir) r included h)
                  λ _. smoke_in-Fine env.temp_dir _
