-- ===== src/Doctor/Checks/Delivery.antt =====
-- internal/doctor/checks.go: the checks of the store and of the delivery of a kickoff.
use hounds_ciai.Prelude.{
  String, not, Option, none, some, List, [], ◌∷◌, ◌==◌, string_eq, if◌then◌else◌, is_nonempty,
}
use hounds_ciai.Prelude.Maps.{keys, lookup}
use hounds_ciai.Prelude.Sorting.{sort_strings}
use hounds_ciai.Config.Types.{Role, Workflow}
use hounds_ciai.Doctor.Outside.{
  CheckResult, passed, failed, skipped, Env, open_store, list_store, close_store, make_temp,
  remove_all, smoke, Host, D, pure, ◌>>=◌, ask, choose, either, texts, join_with,
}

abbrev pub smoke_kickoff_text : String
smoke_kickoff_text = "Reply with the single word OK. Do not run any tools or make any changes."

-- The launch words of the first role in a list of names that has any.
unfoldable pub launch_among : List (String × Role) → List String → List String
launch_among roles [] = []
launch_among roles (n ∷ ns) = elim (lookup n roles) [
  | none ↦ launch_among roles ns
  | some r ↦ if is_nonempty r.launch then r.launch else launch_among roles ns
]

-- `firstLaunch`.
unfoldable pub first_launch : Option Workflow → List String
unfolding launch_among
first_launch none = []
first_launch (some wf) = launch_among wf.roles (sort_strings (keys wf.roles))

module _ {W : Type 0} (host : Host W) where
  unfoldable pub read_tasks : String → D W CheckResult
  read_tasks path =
      ask host (list_store path)
      >>= either
          (λ why. pure (
            failed "store" (texts ("cannot read tasks from " ∷ path ∷ ": " ∷ why ∷ []))
              "the database may be corrupt; move it aside to start fresh (in-flight tasks would be lost)"))
          (λ rows. pure (passed "store" (texts (path ∷ " open, schema current" ∷ []))))

  unfoldable pub check_store : Env → D W CheckResult
  unfolding read_tasks
  check_store env = choose (env.db_path == "") (pure (skipped "store" "no --db given")) (
      ask host (open_store env.db_path)
      >>= either
          (λ why. pure (
            failed "store" (texts ("cannot open " ∷ env.db_path ∷ ": " ∷ why ∷ []))
              "point --db at a writable path on a local filesystem"))
          (λ opened. read_tasks env.db_path >>= λ r.
            ask host (close_store env.db_path) >>= λ closed. pure r))

  unfoldable pub smoke_in : String → List String → D W CheckResult
  smoke_in dir launch =
      ask host (smoke dir launch smoke_kickoff_text)
      >>= either
          (λ why. pure (
            failed "kickoff-delivery"
              (texts (join_with " " launch ∷ " did not accept a kickoff: " ∷ why ∷ []))
              "this is the failure that escalates tasks having done nothing. Check the agent CLI version and that it starts cleanly by hand in a herdr pane; if it opens but ignores the kickoff, its input handling has changed and exec.deliverKickoff needs a new delivery method"))
          (λ out.
            pure (
              passed "kickoff-delivery"
                (texts (join_with " " launch ∷ " accepted a kickoff" ∷ []))))

  -- The scratch directory is removed once the check is over.
  unfoldable pub smoke_scratch : String → List String → D W CheckResult
  unfolding smoke_in
  smoke_scratch dir launch =
      smoke_in dir launch >>= λ r. ask host (remove_all dir) >>= λ gone. pure r

  unfoldable pub check_kickoff_delivery : Env → D W CheckResult
  unfolding first_launch smoke_in smoke_scratch
  check_kickoff_delivery env =
      let launch = first_launch env.workflow in
      choose (not env.smoker) (pure (skipped "kickoff-delivery" "no execution backend wired")) (
        choose (not (is_nonempty launch))
          (pure (skipped "kickoff-delivery" "no role declares a launch command"))
          (choose (env.temp_dir == "")
            (ask host make_temp
              >>= either
                  (λ why. pure (
                    failed "kickoff-delivery" (texts ("cannot create a scratch dir: " ∷ why ∷ []))
                      "check TMPDIR"))
                  (λ dir. smoke_scratch dir launch))
            (smoke_in env.temp_dir launch)))
