-- ===== src/Cli/Validating.antt =====
-- cmd/orchestratord/main.go: `validate` against the commands that start an engine.
use hounds_ciai.Prelude.{
  String, Bool, true, false, ◌≡◌, ◌↔◌, refl, Option, none, some, List, [], ◌∷◌, arith,
}
use hounds_ciai.Config.Types.{Workflow}
use hounds_ciai.Config.Validate.{LoadError, checked, semantic_checks, decode, parse}
use hounds_ciai.Engine.Executable.{check_executable}
use hounds_ciai.Doctor.Outside.{
  Answer, error, given, open_store, Host, Session, pure, ◌>>=◌, ask, either,
}
use hounds_ciai.Cli.{
  CommonFlags, System, executable_exit, workflow_exit, validate_exit, validate_text, Wiring,
  invalid, not_executable, unwired, wired_up, parsed, engine_of, wire_store, wire_executable,
  wire_loaded, wire_source,
}

-- The config is the reason for a refusal to start.
unfoldable pub blames_config : Wiring → Bool
blames_config (invalid e) = true
blames_config (not_executable xs) = true
blames_config unwired = false
blames_config (wired_up w) = false

-- Parse never comes back with neither an error nor a workflow.
parsed-something :
    {W : Type 0} (host : Host W) (text : String)
    → (parsed host text).error ≡ none
    → ¬ ((parsed host text).workflow ≡ none)
unfolding parsed parse decode checked semantic_checks
parsed-something host text e w = ground (arith, e, w)

module _ {W : Type 0} (host : Host W) (sys : System) (cf : CommonFlags) (src : String) where
  blameless :
      (wf : Workflow) (dir : Option String) (s : Session W)
      → blames_config (wire_store host sys cf src wf dir s).0 ≡ false
  unfolding wire_store blames_config pure ◌>>=◌ either
  blameless wf none s = refl
  blameless wf (some dir) s = opened (ask host (open_store cf.db) s).0
    where
      opened :
          (r : Answer String)
          → blames_config
              (either
                (λ why. pure unwired)
                (λ opened. pure (
                  wired_up (record {
                    engine = engine_of host sys cf src wf;
                    workflow = wf;
                    repo_dir = dir;
                  })))
                r
                (ask host (open_store cf.db) s).1).0
            ≡ false
      opened (error why) = refl
      opened (given out) = refl

  executable-wires :
      (wf : Workflow) (xs : List String) (s : Session W)
      → (executable_exit xs ≡ 0)
        ↔ (blames_config (wire_executable host sys cf src wf xs s).0 ≡ false)
  unfolding executable_exit wire_executable blames_config pure
  executable-wires wf [] s = (λ h. blameless wf (sys.abs cf.repo) s, λ h. refl)
  executable-wires wf (x ∷ xs) s = (λ h. cc, λ h. cc)

  loaded-wires :
      (e : Option LoadError) (o : Option Workflow) (s : Session W)
      → (e ≡ none → ¬ (o ≡ none))
      → (validate_exit e o ≡ 0) ↔ (blames_config (wire_loaded host sys cf src e o s).0 ≡ false)
  unfolding validate_exit workflow_exit wire_loaded blames_config pure
  loaded-wires (some e) o s h = (λ z. ground (arith, z), λ z. cc)
  loaded-wires none none s h = absurd (h refl refl)
  loaded-wires none (some wf) s h = executable-wires wf (check_executable wf) s

  -- `validate` exits with 0 on a text exactly when a command that starts an engine on that text, however
  -- the rest of its wiring goes, does not refuse it for its config.
  pub validate_text-wires :
      (s : Session W)
      → (validate_text host src ≡ 0) ↔ (blames_config (wire_source host sys cf src s).0 ≡ false)
  unfolding validate_text wire_source
  validate_text-wires s = loaded-wires _ _ s (parsed-something host src)
