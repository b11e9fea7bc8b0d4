-- ===== src/Witnesses/Scaffolding.antt =====
-- What init writes into an empty directory, and beside another file.
use hounds_ciai.Prelude.{
  String, true, ◌≡◌, refl, none, [], ◌∷◌, ◌==◌, string_eq, if◌then◌else◌, In-cons, inl, inr, ap,
  sym, ◌∙◌, ◌≢◌, ==_false, false,
}
use Prim.Native.String.{◌++◌ as text_append}
use hounds_ciai.Prelude.Maps.{lookup}
use hounds_ciai.Cli.Scaffold.{
  Files, Outside, InitFlags, target, scaffold_files, cmd_init, copy_all, copy_text, put,
  write_target, any_there, is_slug, cut_slash,
}
use hounds_ciai.Cli.Scaffold.Laws.{Apart, Scaffolded, cmd_init-Scaffolded}

abbrev embedded_files : Files
embedded_files =
    ("default-pipeline.yaml", "agent-ready")
    ∷ ("prompts/triage.md", "triage")
    ∷ ("prompts/review.md", "review")
    ∷ []

-- A text that is the token alone is replaced; no other is tried here.
abbrev disk_outside : Outside
disk_outside = record {
  join = λ dir name. text_append dir (text_append "/" name);
  embedded = λ src. lookup src embedded_files;
  replace_all = λ text old new. if text == old then new else text;
  stat_fails = λ path. false;
  makes_dir = λ path. true;
  fault = λ path. none;
}

abbrev init_flags : InitFlags
init_flags = record { repo = "owner/name"; label = "ready"; dir = "cfg" }

abbrev some_files : Files
some_files = ("cfg/README.md", "read me") ∷ []

abbrev at_target : String → String
at_target name = target disk_outside init_flags name

clash :
    (a b : String) {src dst from : String}
    → (at_target a == at_target b) ≡ false
    → ◌≡◌ {A = String × String} (src, dst) (from, a)
    → at_target dst ≢ at_target b
clash a b ne e same =
    ==_false (at_target a) (at_target b) ne
      (ap (λ (x : String × String). at_target x.1) (sym e) ∙ same)

targets-Apart : Apart disk_outside init_flags scaffold_files
unfolding Apart
targets-Apart = (
  λ src dst i same. elim (In-cons i) [
    | inl e ↦ clash "prompts/triage.md" "pipeline.yaml" refl e same
    | inr j ↦ elim (In-cons j) [
      | inl e ↦ clash "prompts/review.md" "pipeline.yaml" refl e same
      | inr k ↦ elim k [ ]
    ]
  ],
  (
    λ src dst i same. elim (In-cons i) [
      | inl e ↦ clash "prompts/review.md" "prompts/triage.md" refl e same
      | inr k ↦ elim k [ ]
    ],
    (λ src dst i same. elim i [ ], tt),
  ),
)

cmd_init-Scaffolded_example :
    Scaffolded disk_outside init_flags scaffold_files some_files
      (cmd_init disk_outside init_flags scaffold_files some_files).0
      (cmd_init disk_outside init_flags scaffold_files some_files).1
cmd_init-Scaffolded_example =
    cmd_init-Scaffolded disk_outside init_flags scaffold_files some_files targets-Apart

init_writes : cmd_init disk_outside init_flags scaffold_files some_files ≡ (
  0,
  ("cfg/README.md", "read me")
      ∷ ("cfg/pipeline.yaml", "ready")
      ∷ ("cfg/prompts/triage.md", "triage")
      ∷ ("cfg/prompts/review.md", "review")
      ∷ [],
)
unfolding cmd_init is_slug cut_slash any_there copy_all copy_text put write_target
init_writes = refl
