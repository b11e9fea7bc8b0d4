-- ===== src/Cli/Scaffold.antt =====
-- cmd/orchestratord/init.go: what init writes, over the files of a disk. Package flag, filepath.Join,
-- the embedded examples and strings.ReplaceAll are parameters; what is printed is left out.
pub mod Laws
use hounds_ciai.Prelude.{
  ℕ, String, Bool, true, false, not, ◌&&◌, ◌≡◌, ◌≢◌, refl, sym, ◌∙◌, Option, none, some, List, [],
  ◌∷◌, ◌==◌, string_eq, nat_eq, if◌then◌else◌, ◌||◌, In, here, there, In-cons, Bool-cases, inl, inr,
  arith, Option-cases, ==_true,
}
use Prim.Native.Char.{code}
use hounds_ciai.Prelude.Maps.{lookup, has_key, insert, lookup-insert, has_key-lookup}

abbrev pub placeholder_repo : String
placeholder_repo = "your-github-user/your-repo"

abbrev pub default_label : String
default_label = "agent-ready"

-- The files of the disk, by path. Directories are left out, but for whether one comes to be there.
abbrev pub Files : Type 0
Files = List (String × String)

-- The outside: `stat_fails` says whether os.Stat of a path fails although it is there, `makes_dir` says whether the directory of a path comes to be there, `fault` whether a
-- write fails, and what part of the file it then leaves, if it leaves one.
pub record Outside : Type 0 where
  pub join : String → String → String
  pub embedded : String → Option String
  pub replace_all : (text old new : String) → String
  pub stat_fails : String → Bool
  pub makes_dir : String → Bool
  pub fault : String → Option (Option String)

-- `strings.Cut(s, "/")`.
unfoldable pub cut_slash : String → Option (String × String)
cut_slash String.[] = none
cut_slash (String.◌∷◌ c s) =
    let rest = cut_slash s in
    if code c == b'/'
    then some (String.[], s)
    else elim rest [ none ↦ none | some p ↦ some (String.◌∷◌ c p.0, p.1) ]

-- The shape owner/name, with one slash.
unfoldable pub is_slug : String → Bool
unfolding cut_slash
is_slug repo = elim (cut_slash repo) [
  | none ↦ false
  | some p ↦
      not (p.0 == "") && not (p.1 == "") && elim (cut_slash p.1) [ none ↦ true | some q ↦ false ]
]

-- What is copied, and where to.
abbrev pub scaffold_files : List (String × String)
scaffold_files =
    ("default-pipeline.yaml", "pipeline.yaml")
    ∷ ("prompts/triage.md", "prompts/triage.md")
    ∷ ("prompts/review.md", "prompts/review.md")
    ∷ []

-- The flags.
pub record InitFlags : Type 0 where
  pub repo : String
  pub label : String
  pub dir : String

module _ (o : Outside) (f : InitFlags) where
  abbrev pub target : String → String
  target dst = o.join f.dir dst

  -- A target is there already, as far as os.Stat tells: any error of it counts as an absent file.
  unfoldable pub any_there : List (String × String) → Files → Bool
  any_there [] disk = false
  any_there ((src, dst) ∷ rest) disk =
      has_key (target dst) disk && not (o.stat_fails (target dst)) || any_there rest disk

  abbrev pub substituted : String → String → String
  substituted src text =
      if src == "default-pipeline.yaml"
      then o.replace_all (o.replace_all text placeholder_repo f.repo) default_label f.label
      else text

  -- A write, by the fault that it meets.
  unfoldable pub write_target : Option (Option String) → String → String → Files → Bool × Files
  write_target none path contents disk = (true, insert path contents disk)
  write_target (some none) path contents disk = (false, disk)
  write_target (some (some part)) path contents disk = (false, insert path part disk)

  unfoldable pub put : String → String → Files → Bool × Files
  unfolding write_target
  put path contents disk =
      if o.makes_dir path then write_target (o.fault path) path contents disk else (false, disk)

  unfoldable pub copy_text : Option String → String → String → Files → Bool × Files
  unfolding put
  copy_text none src dst disk = (false, disk)
  copy_text (some text) src dst disk = put (target dst) (substituted src text) disk

  abbrev pub copy : String → String → Files → Bool × Files
  copy src dst disk = copy_text (o.embedded src) src dst disk

  -- The loop over the files, up to the first failure.
  unfoldable pub copy_all : List (String × String) → Files → ℕ × Files
  unfolding copy_text
  copy_all [] disk = (0, disk)
  copy_all ((src, dst) ∷ rest) disk =
      let (done, disk') = copy src dst disk in
      let more = copy_all rest disk' in if done then more else (1, disk')

  -- `cmdInit`, with the order in which the map of the files happens to be read.
  unfoldable pub cmd_init : List (String × String) → Files → ℕ × Files
  unfolding is_slug any_there copy_all
  cmd_init order disk =
      if not (is_slug f.repo)
      then (2, disk)
      else if any_there order disk
      then (1, disk)
      else copy_all order disk
