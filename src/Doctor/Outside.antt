-- ===== src/Doctor/Outside.antt =====
-- internal/doctor/doctor.go and env.go: the results of checks, what the checks are given, and the
-- outside that they ask. A trace records what was asked, newest first.
use hounds_ciai.Prelude.{
  ℕ, String, Bool, true, false, Option, none, some, List, [], ◌∷◌, ◌==◌, string_eq, nat_eq,
  if◌then◌else◌,
}
use Prim.Native.Char.{code}
use Prim.Native.String.{◌++◌ as text_append}
use hounds_ciai.Config.Types.{Workflow}
use hounds_ciai.Config.Validate.{LoadError}
use hounds_ciai.Config.Validate.Messages.{Warning}

pub data Status : Type 0 where
  pass warn fail skip : Status

-- `Result`.
pub record CheckResult : Type 0 where
  pub name : String
  pub status : Status
  pub detail : String
  pub fix : String

abbrev pub passed : String → String → CheckResult
passed name detail = record { name = name; status = pass; detail = detail; fix = "" }

abbrev pub warned : String → String → String → CheckResult
warned name detail fix = record { name = name; status = warn; detail = detail; fix = fix }

abbrev pub failed : String → String → String → CheckResult
failed name detail fix = record { name = name; status = fail; detail = detail; fix = fix }

abbrev pub skipped : String → String → CheckResult
skipped name detail = record { name = name; status = skip; detail = detail; fix = "" }

-- `Env`. The two functions are those that it carries, or the operating system's in their place; the
-- `KickoffSmoker` is a call of the outside, and here it is said whether there is one.
pub record Env : Type 0 where
  pub smoker : Bool
  pub config_path : String
  pub config_source : String
  pub workflow : Option Workflow
  pub repo_dir : String
  pub repo_slug : String
  pub base : String
  pub label : String
  pub worktrees_dir : String
  pub db_path : String
  pub git_bin : String
  pub gh_bin : String
  pub herdr_bin : String
  pub getenv : String → String
  pub look_path : String → Option String
  pub temp_dir : String

abbrev or_default : String → String → String
or_default s d = if s == "" then d else s

-- `withDefaults`.
unfoldable pub with_defaults : Env → Env
with_defaults env = record env {
  git_bin = or_default env.git_bin "git";
  gh_bin = or_default env.gh_bin "gh";
  herdr_bin = or_default env.herdr_bin "herdr";
  base = or_default env.base "main";
}

-- What a check asks of the outside. `try_file` is os.CreateTemp with the close and the removal of the
-- file that it made; `open_store` creates, opens and migrates.
pub data Probe : Type 0 where
  read_file : (path : String) → Probe
  process : (dir : String) → (argv : List String) → Probe
  make_dir try_file : (dir : String) → Probe
  open_store list_store close_store : (path : String) → Probe
  make_temp : Probe
  remove_all : (dir : String) → Probe
  smoke : (dir : String) → (launch : List String) → (kickoff : String) → Probe

-- An error, by its text, or what was asked for.
pub data Answer (A : Type 0) : Type 0 where
  error : (why : String) → Answer A
  given : A → Answer A

-- A text that strconv.Atoi reads: `below n` is -(n + 1).
pub data Count : Type 0 where
  below natural : ℕ → Count

-- The outside: what it answers, whether the context is done, and the readers and writers of texts that
-- are not the repository's, with the words for the errors and warnings of a config.
pub record Host (W : Type 0) : Type 0 where
  pub ask : Probe → W → Answer String × W
  pub cancelled : W → Bool
  pub trim : String → String
  pub quoted : String → String
  pub dir_of : String → String
  pub labels_of : String → Answer (List String)
  pub atoi : String → Option Count
  pub validate_schema : String → Option (List String)
  pub unmarshal : String → Option Workflow
  pub error_text : LoadError → String
  pub warning_text : Warning → String

pub record Session (W : Type 0) : Type 0 where
  pub world : W
  pub trace : List Probe

abbrev pub D : Type 0 → Type 0 → Type 0
D W A = Session W → A × Session W

module _ {W : Type 0} where
  unfoldable pub pure : {A : Type 0} → A → D W A
  pure a s = (a, s)

  infixl 5 ◌>>=◌
  unfoldable pub ◌>>=◌ : {A B : Type 0} → D W A → (A → D W B) → D W B
  m >>= f = λ s. f (m s).0 (m s).1

  unfoldable pub ask : Host W → Probe → D W (Answer String)
  ask host p s = let (r, w) = host.ask p s.world in (r, record { world = w; trace = p ∷ s.trace })

  unfoldable pub choose : {A : Type 0} → Bool → D W A → D W A → D W A
  choose true m n = m
  choose false m n = n

  -- The next step on an error, and on an answer.
  unfoldable pub either : {A B : Type 0} → (String → D W B) → (A → D W B) → Answer A → D W B
  either f g (error why) = f why
  either f g (given a) = g a

-- The words of a message, one after the other.
unfoldable pub texts : List String → String
texts [] = ""
texts (t ∷ ts) = text_append t (texts ts)

-- `strings.Join`.
unfoldable pub join_with : String → List String → String
join_with sep [] = ""
join_with sep (t ∷ []) = t
join_with sep (t ∷ u ∷ ts) = text_append t (text_append sep (join_with sep (u ∷ ts)))

-- What stands before the first line feed, if there is one.
unfoldable pub before_newline : String → Option String
before_newline String.[] = none
before_newline (String.◌∷◌ c s) =
    let rest : Option String = elim (before_newline s) [
      | none ↦ none
      | some t ↦ some (String.◌∷◌ c t)
    ] in
    if code c == 10 then some "" else rest
