-- ===== src/Engine/OverGithub.antt =====
-- The engine over internal/github: its calls of GitHub, as the client's methods and their gh commands.
use hounds_ciai.Prelude.{
  ℕ, suc, String, Bool, true, false, ◌≡◌, refl, ap, ◌∙◌, sym, Option, none, some, List, [], ◌∷◌,
  ◌++◌, ◌==◌, ◌&&◌, string_eq, if◌then◌else◌, map, Bool-cases, inl, inr,
}
use hounds_ciai.Config.Types.{dry_run_enabled}
use hounds_ciai.Github.Client.{
  Pr, Host, Gh, map_ok, list_prs_args, view_issue_args, remove_label_args, view_pr_args, merge_args,
  delete_branch_args, close_issue_args, run_gh, find_open_pr, view_issue, drop_label,
  view_pr_status, merge_pr, drop_remote_branch, complete_issue,
}
use hounds_ciai.Engine.Monad.{
  Call, Reply, World, Engine, Sys, find_pr, pr_status, fetch_issue, merge, delete_remote_branch,
  close_issue, remove_label,
}
use hounds_ciai.Engine.Driving.{drive}
use hounds_ciai.Engine.Promises.{merges, drive-dry_run}

abbrev number_of : Option Pr → Option ℕ
number_of none = none
number_of (some pr) = some pr.number

module _ (comment : ℕ → String) where
  -- The command of a call: none where the call is not for GitHub.
  unfoldable pub gh_command : Call → List (List String)
  gh_command (find_pr b) = list_prs_args b ∷ []
  gh_command (pr_status n) = view_pr_args n ∷ []
  gh_command (fetch_issue n) = view_issue_args n ∷ []
  gh_command (merge n) = merge_args n ∷ []
  gh_command (delete_remote_branch b) = delete_branch_args b ∷ []
  gh_command (close_issue n) = close_issue_args n (comment n) ∷ []
  gh_command (remove_label n l) = remove_label_args n l ∷ []
  gh_command c = []

  -- The commands of a trace, newest first.
  unfoldable pub gh_commands : List Call → List (List String)
  gh_commands [] = []
  gh_commands (c ∷ cs) = gh_command c ++ gh_commands cs

module _ {G W : Type 0} (h : Host G) (dir : String) (comment : ℕ → String) (rest : World W) where
  -- The world in which the client answers for GitHub, and `rest` for all else. `comment` is the text
  -- with which an issue is closed.
  unfoldable pub ask_github : (c : Call) → Gh G × W → Reply c × (Gh G × W)
  unfolding find_open_pr view_pr_status view_issue merge_pr drop_remote_branch complete_issue
      drop_label map_ok
  ask_github (find_pr b) (g, w) =
      let (r, g') = find_open_pr h dir b g in (map_ok number_of r, (g', w))
  ask_github (pr_status n) (g, w) = let (r, g') = view_pr_status h dir n g in (r, (g', w))
  ask_github (fetch_issue n) (g, w) = let (r, g') = view_issue h dir n g in (r, (g', w))
  ask_github (merge n) (g, w) = let (r, g') = merge_pr h dir n g in (r, (g', w))
  ask_github (delete_remote_branch b) (g, w) =
      let (r, g') = drop_remote_branch h dir b g in (r, (g', w))
  ask_github (close_issue n) (g, w) =
      let (r, g') = complete_issue h dir n (comment n) g in (r, (g', w))
  ask_github (remove_label n l) (g, w) = let (r, g') = drop_label h dir n l g in (r, (g', w))
  ask_github c (g, w) = let (r, w') = rest.perform c w in (r, (g, w'))

  abbrev pub over_github : World (Gh G × W)
  over_github = record { perform = ask_github; cause = λ s. rest.cause s.1 }

  -- Each call runs its command in the repository, and no other.
  pub ask_github-ran :
      (c : Call) (g : Gh G) (w : W)
      → Gh.ran (ask_github c (g, w)).1.0 ≡ map (λ args. (dir, args)) (gh_command comment c) ++ g.ran
  unfolding ask_github gh_command find_open_pr run_gh view_pr_status view_issue merge_pr
      drop_remote_branch complete_issue drop_label map_ok
  ask_github-ran (find_pr b) g w = refl
  ask_github-ran (pr_status n) g w = refl
  ask_github-ran (fetch_issue n) g w = refl
  ask_github-ran (merge n) g w = refl
  ask_github-ran (delete_remote_branch b) g w = refl
  ask_github-ran (close_issue n) g w = refl
  ask_github-ran (remove_label n l) g w = refl
  ask_github-ran c g w = refl

unfoldable pub runs_merge : List String → Bool
runs_merge (program ∷ noun ∷ verb ∷ args) = noun == "pr" && verb == "merge"
runs_merge args = false

-- How many commands are a `gh pr merge`.
unfoldable pub merge_runs : List (List String) → ℕ
unfolding runs_merge
merge_runs [] = 0
merge_runs (args ∷ rest) = let n = merge_runs rest in if runs_merge args then suc n else n

module _ (comment : ℕ → String) where
  -- Closing an issue is no merge, with a comment and without one.
  close_issue_args-runs_merge : (n : ℕ) (c : String) → runs_merge (close_issue_args n c) ≡ false
  unfolding runs_merge
  close_issue_args-runs_merge n c = elim (Bool-cases (c == "")) [
    | inl e ↦ rw e refl
    | inr e ↦ rw e refl
  ]

  gh_commands-merges : (cs : List Call) → merge_runs (gh_commands comment cs) ≡ merges cs
  unfolding merge_runs runs_merge gh_commands gh_command merges
  gh_commands-merges [] = refl
  gh_commands-merges (merge n ∷ cs) = ap suc (gh_commands-merges cs)
  gh_commands-merges (close_issue n ∷ cs) =
      rw (close_issue_args-runs_merge n (comment n)) (gh_commands-merges cs)
  gh_commands-merges (_ ∷ cs) = gh_commands-merges cs

module _ {G W : Type 0} (h : Host G) (dir : String) (comment : ℕ → String) (rest : World W) where
  -- With dry_run on, an engine whose GitHub is the client makes no call in a drive for which the client
  -- runs a `gh pr merge`.
  pub drive-runs_no_merge :
      (e : Engine) (rounds : ℕ) (s : Sys (Gh G × W))
      → dry_run_enabled e.wf.policies ≡ true
      → merge_runs (gh_commands comment (drive (over_github h dir comment rest) e rounds s).1.trace)
        ≡ merge_runs (gh_commands comment s.trace)
  drive-runs_no_merge e rounds s dry =
      gh_commands-merges comment (drive (over_github h dir comment rest) e rounds s).1.trace
      ∙ drive-dry_run (over_github h dir comment rest) e rounds s dry
      ∙ sym (gh_commands-merges comment s.trace)
