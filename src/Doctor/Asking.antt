-- ===== src/Doctor/Asking.antt =====
-- internal/doctor: what the checks ask of the outside, and the form of their reports.
pub mod Github
pub mod Repository
pub mod Delivery
use hounds_ciai.Prelude.{
  zero, suc, String, Bool, true, false, ◌≡◌, refl, List, [], ◌∷◌, ◌==◌, In, here, there, string_eq,
  Option, none, some, Bool-cases, ==_ne, inl, inr, contains,
}
use Prim.Native.String.{◌++◌ as text_append}
use Prim.Native.String.append
use hounds_ciai.Prelude.Sorting.{sort_strings}
use hounds_ciai.Config.Validate.{LoadError}
use hounds_ciai.Config.Validate.Messages.{Warning}
use hounds_ciai.Doctor.Outside.{
  CheckResult, Env, Probe, read_file, process, make_dir, try_file, open_store, list_store,
  close_store, make_temp, remove_all, smoke, error, given, Count, below, natural, Host, D, pure,
  texts, skipped, warned,
}
use hounds_ciai.Doctor.Checks.{
  missing_verdict, launch_commands, config_verdict, check_source, check_config, check_herdr_binary,
  check_herdr_server, agents_verdict, check_agent_binary,
}
use hounds_ciai.Doctor.Checks.Github.{
  check_gh_auth, tokens_verdict, check_gh_token_env, check_gh_repo, label_verdict, check_gh_label,
}
use hounds_ciai.Doctor.Checks.Repository.{
  check_repo_checkout, check_base_branch, count_verdict, compare_base, check_base_current,
  worktrees_of, check_worktrees_dir,
}
use hounds_ciai.Doctor.Checks.Delivery.{
  read_tasks, check_store, smoke_in, smoke_scratch, check_kickoff_delivery, smoke_kickoff_text,
}
use hounds_ciai.Doctor.Rules.{
  Reports, passed-Reports, skipped-Reports, warned-Reports, failed-Reports, Meets, Meets-pure,
  Meets-choose, Meets-bind, Meets-ask, Meets-last,
}

-- The commands of the checks. All but the fetch only read.
abbrev pub commands_of : Env → List (List String)
commands_of env =
    (env.herdr_bin ∷ "--version" ∷ [])
    ∷ (env.herdr_bin ∷ "pane" ∷ "list" ∷ [])
    ∷ (env.gh_bin ∷ "auth" ∷ "status" ∷ [])
    ∷ (env.gh_bin ∷ "repo" ∷ "view" ∷ env.repo_slug ∷ "--json" ∷ "nameWithOwner" ∷ [])
    ∷ (env.gh_bin ∷ "label" ∷ "list" ∷ "--repo" ∷ env.repo_slug ∷ "--json" ∷ "name" ∷ [])
    ∷ (env.git_bin ∷ "rev-parse" ∷ "--is-inside-work-tree" ∷ [])
    ∷ (env.git_bin ∷ "rev-parse" ∷ "--verify" ∷ text_append "refs/heads/" env.base ∷ [])
    ∷ (env.git_bin ∷ "fetch" ∷ "--quiet" ∷ "origin" ∷ env.base ∷ [])
    ∷ (env.git_bin ∷ "rev-list" ∷ "--count" ∷ texts (env.base ∷ "..origin/" ∷ env.base ∷ []) ∷ [])
    ∷ []

-- What a preflight may ask; what launches an agent, or makes room for one, only if it is included.
abbrev pub Allowed : {W : Type 0} → Host W → Bool → Env → Probe → Type 0
Allowed host include env (read_file path) = path ≡ env.config_path
Allowed host include env (process dir argv) = In argv (commands_of env)
Allowed host include env (make_dir dir) = dir ≡ worktrees_of host env
Allowed host include env (try_file dir) = dir ≡ worktrees_of host env
Allowed host include env (open_store path) = path ≡ env.db_path
Allowed host include env (list_store path) = path ≡ env.db_path
Allowed host include env (close_store path) = path ≡ env.db_path
Allowed host include env make_temp = include ≡ true
Allowed host include env (remove_all dir) = include ≡ true
Allowed host include env (smoke dir launch kickoff) = include ≡ true

-- A message that begins with a text is as little empty as that text.
append-nonempty : (s t : String) → (s == "") ≡ false → (text_append s t == "") ≡ false
append-nonempty String.[] t h = cc
append-nonempty (String.◌∷◌ c s) t h =
    rw append.cons (==_ne (String.◌∷◌ c (text_append s t)) String.[] (λ e. cc))

pub texts-nonempty :
    (s : String) (ts : List String) → (s == "") ≡ false → (texts (s ∷ ts) == "") ≡ false
unfolding texts
texts-nonempty s ts h = append-nonempty s (texts ts) h

module _ {W : Type 0} (host : Host W) (include : Bool) (env : Env) where
  abbrev pub Fine : String → D W CheckResult → Type 0
  Fine name m = Meets host (Allowed host include env) (Reports name) m

  pub skips : (name why : String) → Fine name (pure (skipped name why))
  skips name why = Meets-pure host _ _ (skipped-Reports name why)

  config_verdict-Reports :
      (e : Option LoadError) (ws : List Warning) → Reports "config" (config_verdict host e ws)
  unfolding config_verdict
  config_verdict-Reports (some e) ws = failed-Reports _ _ _ refl
  config_verdict-Reports none [] = passed-Reports _ _
  config_verdict-Reports none (w ∷ ws) = warned-Reports _ _ _ refl

  check_source-Fine : (src : String) → Fine "config" (check_source host src)
  unfolding check_source
  check_source-Fine src = Meets-pure host _ _ (config_verdict-Reports _ _)

  pub check_config-Fine : Fine "config" (check_config host env)
  unfolding check_config
  check_config-Fine =
      Meets-choose host _ _ (λ _. skips _ _)
        λ _.
          Meets-choose host _ _
            (λ _.
              Meets-ask host _ (read_file env.config_path) refl
                (λ why. Meets-pure host _ _ (failed-Reports _ _ _ refl)) check_source-Fine)
            (λ _. check_source-Fine env.config_source)

  pub check_herdr_server-Fine : Fine "herdr-server" (check_herdr_server host env)
  unfolding check_herdr_server
  check_herdr_server-Fine =
      Meets-ask host _ _ (there here) (λ why. Meets-pure host _ _ (failed-Reports _ _ _ refl))
        λ out. Meets-pure host _ _ (passed-Reports _ _)

  missing_verdict-Reports :
      (found ms : List String) → Reports "agent-binary" (missing_verdict host found ms)
  unfolding missing_verdict
  missing_verdict-Reports found [] = passed-Reports _ _
  missing_verdict-Reports found (m ∷ ms) = failed-Reports _ _ _ refl

  agents_verdict-Reports :
      (look : String → Option String) (cs : List String)
      → Reports "agent-binary" (agents_verdict host look cs)
  unfolding agents_verdict
  agents_verdict-Reports look [] = skipped-Reports _ _
  agents_verdict-Reports look (c ∷ cs) = missing_verdict-Reports _ _

  -- A check that begins with a lookup.
  pub found_first :
      {A : Type 0} (name : String) (o : Option A) {m : D W CheckResult} {f : A → D W CheckResult}
      → Fine name m
      → ((a : A) → Fine name (f a))
      → Fine name (elim o [ none ↦ m | some a ↦ f a ])
  found_first name none h k = h
  found_first name (some a) h k = k a

  pub check_agent_binary-Fine : Fine "agent-binary" (check_agent_binary host env)
  unfolding check_agent_binary
  check_agent_binary-Fine = found_first _ env.workflow (skips _ _) λ wf.
      Meets-pure host _ _
        (agents_verdict-Reports env.look_path (sort_strings (launch_commands [] wf.roles)))

  pub check_herdr_binary-Fine : Fine "herdr-binary" (check_herdr_binary host env)
  unfolding check_herdr_binary
  check_herdr_binary-Fine =
      found_first _ (env.look_path env.herdr_bin) (Meets-pure host _ _ (failed-Reports _ _ _ refl))
        λ path.
          Meets-ask host _ _ here (λ why. Meets-pure host _ _ (failed-Reports _ _ _ refl))
            λ out. Meets-pure host _ _ (passed-Reports _ _)
