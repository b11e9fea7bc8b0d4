-- ===== src/Exec/Herdr/Owned.antt =====
-- What of internal/exec/herdr.go's commands is a spawn's own: its worktree, branch, workspaces, pane.
use hounds_ciai.Prelude.{
  String, true, false, ◌≡◌, ◌⊎◌, inl, inr, refl, List, [], ◌∷◌, In, here, there, some, ◌==◌, ◌≢◌,
  sym, ◌∙◌, ap, subst, Bool-cases, ==_true, ==_false, if◌then◌else◌, string_eq, nat_eq,
}
use hounds_ciai.Exec.{Spawn}
use hounds_ciai.Exec.Herdr.Shell.{
  Command, argv, pane_wait_output, pane_read, agent_wait, no_root_pane, give_up, choose, done_,
  decoded, worktree_remove, worktree_prune, branch_delete, fetch, worktree_add_existing,
  worktree_add_fresh, workspace_list, pane_list, workspace_create, workspace_close, pane_run,
  send_text, send_enter, remove_all, pause, Herdr, Host, good, Session, issue,
}
use hounds_ciai.Exec.Herdr.{workspace_by_label, parse_root_pane_id, open_workspace}
use hounds_ciai.Exec.Herdr.Readings.{worktree_dir, labelled, joined}
use hounds_ciai.Exec.Herdr.Tracing.{bind-good, issue-good, decoded-good, done_good, gave_up}

module _ {W : Type 0} (host : Host W) (h : Herdr) (s : Spawn) where
  abbrev pub own_worktree : String
  own_worktree = worktree_dir h s.repo_dir s.task_id

  -- In some world herdr lists the workspace under the task's label.
  pub record Listed (id : String) : Type 0 where
    pub world : W
    pub out : String
    pub rows : List (String × String)
    pub answers : (host.run workspace_list (argv h workspace_list) world).0 ≡ some out
    pub decodes : host.workspaces_of out ≡ some rows
    pub member : In (id, s.task_id) rows

  -- The pane is what herdr answers to the request for a workspace in the task's worktree, under its
  -- label.
  pub record Created (pane : String) : Type 0 where
    pub world : W
    pub out : String
    pub answers :
        (host.run
          (workspace_create own_worktree s.task_id)
          (argv h (workspace_create own_worktree s.task_id))
          world).0
        ≡ some out
    pub root : host.root_pane_of out ≡ some pane

  -- A command that acts on the spawn's own worktree, branch, workspaces and pane, and on the branch as
  -- `PreserveBranch` says; what reads the lists of panes and workspaces, and a pause, act on nothing.
  abbrev pub Own : Command → Type 0
  Own (worktree_remove repo path) = (repo ≡ s.repo_dir) × (path ≡ own_worktree)
  Own (worktree_prune repo) = repo ≡ s.repo_dir
  Own (branch_delete repo branch) =
      (repo ≡ s.repo_dir) × (branch ≡ s.branch) × (s.preserve_branch ≡ false)
  Own (fetch repo ref) =
      (repo ≡ s.repo_dir) × (ref ≡ (if s.preserve_branch then s.branch else s.base))
  Own (worktree_add_existing repo path branch) =
      (repo ≡ s.repo_dir) × (path ≡ own_worktree) × (branch ≡ s.branch) × (s.preserve_branch ≡ true)
  Own (worktree_add_fresh repo branch path base) =
      (repo ≡ s.repo_dir)
      × (path ≡ own_worktree)
      × (branch ≡ s.branch)
      × (base ≡ s.base)
      × (s.preserve_branch ≡ false)
  Own workspace_list = Unit
  Own pane_list = Unit
  Own (workspace_create cwd label) = (cwd ≡ own_worktree) × (label ≡ s.task_id)
  Own (workspace_close id) = Listed id
  Own (pane_run pane text) = Created pane × ((text ≡ joined s.launch) ⊎ (text ≡ s.kickoff))
  Own (pane_wait_output pane mark timeout) = Created pane
  Own (send_text pane text) = Created pane × (text ≡ s.kickoff)
  Own (send_enter pane) = Created pane
  Own (pane_read pane lines) = ⊥
  Own (agent_wait pane target timeout) = ⊥
  Own (remove_all path) = path ≡ own_worktree
  Own (pause time) = Unit

  labelled-In :
      (label : String) (rows : List (String × String))
      → labelled label rows ≢ ""
      → In (labelled label rows, label) rows
  unfolding labelled
  labelled-In label [] = λ ne. absurd (ne refl)
  labelled-In label ((id, l) ∷ ws) = elim (Bool-cases (l == label)) [
    | inl e ↦ rw (e, ==_true l label e) (λ ne. here)
    | inr e ↦ rw e (λ ne. there (labelled-In label ws ne))
  ]

  pub found-Listed :
      (id : String) (t t' : Session W)
      → workspace_by_label host h s.task_id t ≡ (good id, t')
      → (id == "") ≡ false
      → Listed id
  unfolding workspace_by_label
  found-Listed id t t' e ne =
      let (out, t1, asked, rest) = bind-good (issue host h workspace_list) _ t t' id e in
      let (rows, t2, read, last) = bind-good (decoded (host.workspaces_of out)) _ t1 t' id rest in
      let same = done_good (labelled s.task_id rows) id t2 t' last in
      record {
        world = t.world;
        out = out;
        rows = rows;
        answers = issue-good host h workspace_list t t1 out asked;
        decodes = decoded-good (host.workspaces_of out) t1 t2 rows read;
        member =
            subst (λ (i : String). In (i, s.task_id) rows) same
              (labelled-In s.task_id rows (λ q. ==_false id "" ne (sym same ∙ q)));
      }

  pub opened-Created :
      (pane : String) (t t' : Session W)
      → open_workspace host h own_worktree s.task_id t ≡ (good pane, t')
      → Created pane
  unfolding open_workspace parse_root_pane_id choose give_up
  opened-Created pane t t' e =
      let (out, t1, asked, rest) =
        bind-good (issue host h (workspace_create own_worktree s.task_id)) _ t t' pane e in
      let (root, t2, read, last) = bind-good (decoded (host.root_pane_of out)) _ t1 t' pane rest in
      let same : root ≡ pane = chosen root t2 last in
      record {
        world = t.world;
        out = out;
        answers = issue-good host h (workspace_create own_worktree s.task_id) t t1 out asked;
        root = decoded-good (host.root_pane_of out) t1 t2 root read ∙ ap some same;
      }
    where
      chosen :
          (root : String) (t2 : Session W)
          → choose (root == "") (give_up no_root_pane) (done_ root) t2 ≡ (good pane, t')
          → root ≡ pane
      chosen root t2 = elim (Bool-cases (root == "")) [
        | inl q ↦ rw q (λ k. gave_up no_root_pane pane t2 t' k)
        | inr q ↦ rw q (λ k. done_good root pane t2 t' k)
      ]
