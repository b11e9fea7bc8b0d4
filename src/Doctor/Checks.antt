-- ===== src/Doctor/Checks.antt =====
-- internal/doctor/checks.go: the checks, each by what it asks of the outside and what it reports; here
-- those of the config, of herdr and of the agents.
pub mod Github
pub mod Repository
pub mod Delivery
use hounds_ciai.Prelude.{
  suc, String, true, false, not, ◌&&◌, ◌||◌, Option, none, some, List, [], ◌∷◌, ◌==◌, string_eq,
  if◌then◌else◌, contains, is_nonempty, filter, map,
}
use hounds_ciai.Prelude.Maps.{keys, lookup}
use hounds_ciai.Prelude.Sorting.{sort_strings}
use Prim.Native.String.{◌++◌ as text_append}
use hounds_ciai.Config.Types.{Role, Workflow}
use hounds_ciai.Config.Validate.{LoadError, parse}
use hounds_ciai.Config.Validate.Messages.{Warning}
use hounds_ciai.Engine.Naming.{decimal}
use hounds_ciai.Doctor.Outside.{
  CheckResult, passed, warned, failed, skipped, Env, read_file, process, make_dir, try_file,
  open_store, list_store, close_store, make_temp, remove_all, smoke, error, given, Count, natural,
  Host, D, pure, ◌>>=◌, ask, choose, either, texts, join_with, before_newline,
}

-- The first launch words of the roles, each once.
unfoldable pub launch_commands : List String → List (String × Role) → List String
launch_commands seen [] = []
launch_commands seen ((name, r) ∷ roles) = elim r.launch [
  | [] ↦ launch_commands seen roles
  | c ∷ _ ↦
      if contains seen c then launch_commands seen roles else c ∷ launch_commands (c ∷ seen) roles
]

-- The commands that PATH has not, and where the others are.
unfoldable pub missing_of : (String → Option String) → List String → List String
missing_of look cs = filter (λ c. elim (look c) [ none ↦ true | some p ↦ false ]) cs

unfoldable pub found_of : (String → Option String) → List String → List String
found_of look [] = []
found_of look (c ∷ cs) =
    let rest = found_of look cs in elim (look c) [ none ↦ rest | some p ↦ p ∷ rest ]

module _ {W : Type 0} (host : Host W) where
  unfoldable pub first_line : String → String
  first_line out =
      let s = host.trim out in elim (before_newline s) [ none ↦ s | some t ↦ host.trim t ]

  -- What a parsed config is reported as.
  unfoldable pub config_verdict : Option LoadError → List Warning → CheckResult
  config_verdict (some e) ws =
      failed "config" (host.error_text e)
        "fix the config, then re-run `orchestratord validate <config>`"
  config_verdict none [] = passed "config" "valid, no warnings"
  config_verdict none (w ∷ ws) =
      warned "config" (join_with "; " (map host.warning_text (w ∷ ws)))
        "review the warnings; none of them block startup"

  unfoldable pub check_source : String → D W CheckResult
  unfolding config_verdict
  check_source src =
      let l = parse host.validate_schema host.unmarshal src in
      pure (config_verdict l.error l.warnings)

  unfoldable pub check_config : Env → D W CheckResult
  unfolding check_source
  check_config env =
      choose (env.config_path == "" && elim env.workflow [ none ↦ true | some wf ↦ false ])
        (pure (skipped "config" "no config given"))
        (choose (env.config_source == "")
          (ask host (read_file env.config_path)
            >>= either
                (λ why. pure (
                  failed "config" (texts ("cannot read " ∷ env.config_path ∷ ": " ∷ why ∷ []))
                    "point --config at a readable workflow YAML"))
                check_source)
          (check_source env.config_source))

  unfoldable pub check_herdr_binary : Env → D W CheckResult
  unfolding first_line
  check_herdr_binary env = elim (env.look_path env.herdr_bin) [
    | none ↦ pure (
        failed "herdr-binary" (texts (host.quoted env.herdr_bin ∷ " not on PATH" ∷ []))
          "install herdr and ensure it is on the daemon's PATH")
    | some path ↦
        ask host (process "" (env.herdr_bin ∷ "--version" ∷ []))
        >>= either
            (λ why. pure (
              failed "herdr-binary" (texts (path ∷ ": --version failed: " ∷ why ∷ []))
                "check the herdr install; the orchestrator drives it entirely through this binary"))
            (λ out. pure (passed "herdr-binary" (texts (path ∷ " (" ∷ first_line out ∷ ")" ∷ []))))
  ]

  unfoldable pub check_herdr_server : Env → D W CheckResult
  check_herdr_server env =
      ask host (process "" (env.herdr_bin ∷ "pane" ∷ "list" ∷ []))
      >>= either
          (λ why. pure (
            failed "herdr-server" (texts ("cannot reach the herdr server: " ∷ why ∷ []))
              "start it with `herdr server`; the daemon cannot spawn or observe any agent without it"))
          (λ out. pure (passed "herdr-server" "reachable"))

  -- The verdict on the sorted launch commands, by those that are missing.
  unfoldable pub missing_verdict : List String → List String → CheckResult
  missing_verdict found [] = passed "agent-binary" (join_with ", " found)
  missing_verdict found (m ∷ ms) =
      failed "agent-binary" (texts ("not on PATH: " ∷ join_with ", " (m ∷ ms) ∷ []))
        "install the agent CLI, or point roles.*.launch at its absolute path"

  unfoldable pub agents_verdict : (String → Option String) → List String → CheckResult
  unfolding missing_of found_of missing_verdict
  agents_verdict look [] = skipped "agent-binary" "no roles declare a launch command"
  agents_verdict look (c ∷ cs) = missing_verdict (found_of look (c ∷ cs)) (missing_of look (c ∷ cs))

  unfoldable pub check_agent_binary : Env → D W CheckResult
  unfolding agents_verdict launch_commands
  check_agent_binary env = elim env.workflow [
    | none ↦ pure (skipped "agent-binary" "no workflow loaded")
    | some wf ↦ pure (agents_verdict env.look_path (sort_strings (launch_commands [] wf.roles)))
  ]
