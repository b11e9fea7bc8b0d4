-- ===== src/Cli/Scaffold/Laws.antt =====
-- cmd/orchestratord/init.go: what init leaves of the disk.
use hounds_ciai.Prelude.{
  ◌&&◌, not, ℕ, zero, suc, String, true, false, ◌≡◌, ◌≢◌, refl, sym, ◌∙◌, Option, none, some, List,
  [], ◌∷◌, string_eq, In, here, there, In-cons, Bool-cases, inl, inr, arith, ==_ne, ==_self, subst,
}
use hounds_ciai.Prelude.Maps.{lookup, has_key, insert, lookup-insert, has_key-lookup}
use hounds_ciai.Cli.Scaffold.{
  Files, Outside, InitFlags, is_slug, target, any_there, substituted, write_target, put, copy_text,
  copy, copy_all, cmd_init,
}

module _ (o : Outside) (f : InitFlags) where
  -- A path that is none of the targets.
  abbrev pub Other : String → List (String × String) → Type 0
  Other p order = (src dst : String) → In (src, dst) order → target o f dst ≢ p

  -- No two targets are the same path.
  unfoldable pub Apart : List (String × String) → Type 0
  Apart [] = Unit
  Apart ((src, dst) ∷ rest) = Other (target o f dst) rest × Apart rest

  insert-other :
      (p path text : String) (disk : Files)
      → path ≢ p
      → lookup p (insert path text disk) ≡ lookup p disk
  insert-other p path text disk ne = lookup-insert p path text disk ∙ rw (==_ne path p ne) refl

  write_target-other :
      (w : Option (Option String)) (p path text : String) (disk : Files)
      → path ≢ p
      → lookup p (write_target o f w path text disk).1 ≡ lookup p disk
  unfolding write_target
  write_target-other none p path text disk ne = insert-other p path text disk ne
  write_target-other (some none) p path text disk ne = refl
  write_target-other (some (some part)) p path text disk ne = insert-other p path part disk ne

  put-other :
      (p path text : String) (disk : Files)
      → path ≢ p
      → lookup p (put o f path text disk).1 ≡ lookup p disk
  unfolding put
  put-other p path text disk ne = elim (Bool-cases (o.makes_dir path)) [
    | inl e ↦ rw e (write_target-other (o.fault path) p path text disk ne)
    | inr e ↦ rw e refl
  ]

  copy_text-other :
      (t : Option String) (p src dst : String) (disk : Files)
      → target o f dst ≢ p
      → lookup p (copy_text o f t src dst disk).1 ≡ lookup p disk
  unfolding copy_text
  copy_text-other none p src dst disk ne = refl
  copy_text-other (some text) p src dst disk ne =
      put-other p (target o f dst) (substituted o f src text) disk ne

  copy_all-Other :
      (p : String) (order : List (String × String)) (disk : Files)
      → Other p order
      → lookup p (copy_all o f order disk).1 ≡ lookup p disk
  unfolding copy_all
  copy_all-Other p [] disk h = refl
  copy_all-Other p ((src, dst) ∷ rest) disk h =
      let step = copy_text-other (o.embedded src) p src dst disk (h src dst here) in
      elim (Bool-cases (copy o f src dst disk).0) [
        | inl e ↦
            rw e (copy_all-Other p rest (copy o f src dst disk).1 (λ s d i. h s d (there i)) ∙ step)
        | inr e ↦ rw e step
      ]

  -- A file that was copied.
  pub record Copied (src dst : String) (disk : Files) : Type 0 where
    pub text : String
    pub source : o.embedded src ≡ some text
    pub there_now : lookup (target o f dst) disk ≡ some (substituted o f src text)

  write_target-lookup :
      (w : Option (Option String)) (path text : String) (disk : Files)
      → (write_target o f w path text disk).0 ≡ true
      → lookup path (write_target o f w path text disk).1 ≡ some text
  unfolding write_target
  write_target-lookup none path text disk h =
      lookup-insert path path text disk ∙ rw (==_self path) refl
  write_target-lookup (some none) path text disk h = cc
  write_target-lookup (some (some part)) path text disk h = cc

  put-lookup :
      (path text : String) (disk : Files)
      → (put o f path text disk).0 ≡ true
      → lookup path (put o f path text disk).1 ≡ some text
  unfolding put
  put-lookup path text disk h = elim (Bool-cases (o.makes_dir path)) [
    | inl e ↦ rw e (write_target-lookup (o.fault path) path text disk (grind (arith, h, e)))
    | inr e ↦ let z : false ≡ true = grind (arith, h, e) in cc
  ]

  copy_text-Copied :
      (t : Option String) (src dst : String) (disk : Files)
      → o.embedded src ≡ t
      → (copy_text o f t src dst disk).0 ≡ true
      → Copied src dst (copy_text o f t src dst disk).1
  unfolding copy_text
  copy_text-Copied none src dst disk e h = cc
  copy_text-Copied (some text) src dst disk e h = record {
    text = text;
    source = e;
    there_now = put-lookup (target o f dst) (substituted o f src text) disk h;
  }

  Copied-kept :
      (src dst : String) (disk after : Files)
      → Copied src dst disk
      → lookup (target o f dst) after ≡ lookup (target o f dst) disk
      → Copied src dst after
  Copied-kept src dst disk after c same = record {
    text = c.text;
    source = c.source;
    there_now = same ∙ c.there_now;
  }

  copy_all-Copied :
      (order : List (String × String)) (disk : Files) (src dst : String)
      → Apart order
      → (copy_all o f order disk).0 ≡ 0
      → In (src, dst) order
      → Copied src dst (copy_all o f order disk).1
  unfolding copy_all Apart
  copy_all-Copied [] disk src dst a h i = elim i [ ]
  copy_all-Copied ((s, d) ∷ rest) disk src dst a h i = elim (Bool-cases (copy o f s d disk).0) [
    | inl e ↦
        let disk' = (copy o f s d disk).1 in
        let rest_ok : (copy_all o f rest disk').0 ≡ 0 = grind (arith, h, e) in
        rw e (elim (In-cons i) [
          | inl same ↦
              subst (λ (x : String × String). Copied x.0 x.1 (copy_all o f rest disk').1) (sym same)
                (Copied-kept s d disk' (copy_all o f rest disk').1
                  (copy_text-Copied (o.embedded s) s d disk refl e)
                  (copy_all-Other (target o f d) rest disk' a.0))
          | inr j ↦ copy_all-Copied rest disk' src dst a.1 rest_ok j
        ])
    | inr e ↦ let z : suc zero ≡ zero = grind (arith, h, e) in cc
  ]

  any_there-absent :
      (order : List (String × String)) (disk : Files) (x : String × String)
      → any_there o f order disk ≡ false
      → In x order
      → (has_key (target o f x.1) disk && not (o.stat_fails (target o f x.1))) ≡ false
  unfolding any_there
  any_there-absent [] disk x h i = elim i [ ]
  any_there-absent ((s, d) ∷ rest) disk x h i =
      elim (Bool-cases (has_key (target o f d) disk && not (o.stat_fails (target o f d)))) [
        | inl e ↦ let z : true ≡ false = grind (arith, h, e) in cc
        | inr e ↦ elim (In-cons i) [
          | inl same ↦ rw same e
          | inr j ↦ any_there-absent rest disk x (grind (arith, h, e)) j
        ]
      ]

  any_there-Other :
      (p text : String) (order : List (String × String)) (disk : Files)
      → any_there o f order disk ≡ false
      → o.stat_fails p ≡ false
      → lookup p disk ≡ some text
      → Other p order
  any_there-Other p text order disk fresh seen there_now src dst i same =
      let e : (has_key p disk && not (o.stat_fails p)) ≡ false =
        subst (λ (q : String). (has_key q disk && not (o.stat_fails q)) ≡ false) same
          (any_there-absent order disk (src, dst) fresh i) in
      let absent : has_key p disk ≡ false = ground (arith, e, seen) in
      let z : lookup p disk ≡ none = has_key-lookup p disk absent in cc

-- What init leaves of the disk, with its exit code.
pub record Scaffolded (o : Outside) (f : InitFlags) (order : List (String × String)) (disk : Files)
    (exit : ℕ) (after : Files) : Type 0 where
  pub elsewhere : (p : String) → Other o f p order → lookup p after ≡ lookup p disk
  pub kept :
      (p text : String)
      → o.stat_fails p ≡ false
      → lookup p disk ≡ some text
      → lookup p after ≡ some text
  pub copied : exit ≡ 0 → (src dst : String) → In (src, dst) order → Copied o f src dst after

untouched :
    (o : Outside) (f : InitFlags) (order : List (String × String)) (disk : Files) (exit : ℕ)
    → exit ≢ 0
    → Scaffolded o f order disk exit disk
untouched o f order disk exit ne = record {
  elsewhere = λ p h. refl;
  kept = λ p text seen h. h;
  copied = λ z src dst i. elim (ne z) [ ];
}

-- Whatever fails, and in whichever order the files come, init changes no file but its targets, and no
-- file that was there and of which os.Stat does not fail; and when it exits with 0, each target holds
-- its example, with the repository and the label substituted in the config. The targets are taken to be
-- different paths; directories are not counted as files.
pub cmd_init-Scaffolded :
    (o : Outside) (f : InitFlags) (order : List (String × String)) (disk : Files)
    → Apart o f order
    → Scaffolded o f order disk (cmd_init o f order disk).0 (cmd_init o f order disk).1
unfolding cmd_init
cmd_init-Scaffolded o f order disk apart = elim (Bool-cases (is_slug f.repo)) [
  | inr e ↦ rw e (untouched o f order disk 2 (λ z. cc))
  | inl e ↦ elim (Bool-cases (any_there o f order disk)) [
    | inl t ↦ rw (e, t) (untouched o f order disk 1 (λ z. cc))
    | inr t ↦
        rw (e, t)
          (record {
            elsewhere = λ p h. copy_all-Other o f p order disk h;
            kept = λ p text seen h.
                copy_all-Other o f p order disk (any_there-Other o f p text order disk t seen h)
                ∙ h;
            copied = λ z src dst i. copy_all-Copied o f order disk src dst apart z i;
          })
  ]
]
