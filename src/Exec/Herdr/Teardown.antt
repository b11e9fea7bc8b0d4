-- ===== src/Exec/Herdr/Teardown.antt =====
-- The ends of a workspace in internal/exec/herdr.go: the preflight's, and `Cleanup`.
use hounds_ciai.Prelude.{
  [], ◌++◌, In, here, there, ==_self, String, ◌≡◌, ◌≢◌, refl, some, List, ◌∷◌, string_eq, ==_ne,
}
use hounds_ciai.Exec.Herdr.Shell.{
  workspace_list, workspace_close, Herdr, Host, good, Session, argv, done_, attempt, choose, issue,
  decoded, proceed, ◌>>=◌, ◌>>◌,
}
use hounds_ciai.Exec.Herdr.{
  workspace_by_label, close_found, close_labelled, open_workspace, launch_in, deliver_kickoff,
  smoke_kickoff, cleanup,
}
use hounds_ciai.Exec.Herdr.Readings.{labelled, finally, smoke_label}

module _ {W : Type 0} (host : Host W) (h : Herdr) where
  -- Asked in this world, herdr lists workspaces of which the first with the label has the id.
  pub record Lists (label id : String) (w : W) : Type 0 where
    pub out : String
    pub rows : List (String × String)
    pub answers : (host.run workspace_list (argv h workspace_list) w).0 ≡ some out
    pub decodes : host.workspaces_of out ≡ some rows
    pub shows : labelled label rows ≡ id

  -- Asked in this world, herdr lists the workspace under the label, and none with that label before it.
  pub record Shown (label id : String) (w : W) : Type 0 where
    pub out : String
    pub earlier : List (String × String)
    pub later : List (String × String)
    pub answers : (host.run workspace_list (argv h workspace_list) w).0 ≡ some out
    pub decodes : host.workspaces_of out ≡ some (earlier ++ ((id, label) ∷ later))
    pub first : (i l : String) → In (i, l) earlier → l ≢ label

  labelled-first :
      (label id : String) (earlier later : List (String × String))
      → ((i l : String) → In (i, l) earlier → l ≢ label)
      → labelled label (earlier ++ ((id, label) ∷ later)) ≡ id
  unfolding labelled
  labelled-first label id [] later f = rw (==_self label) refl
  labelled-first label id ((i, l) ∷ rest) later f =
      rw (==_ne l label (f i l here))
        (labelled-first label id rest later (λ j m k. f j m (there k)))

  Shown-Lists : (label id : String) (w : W) → Shown label id w → Lists label id w
  Shown-Lists label id w s = record {
    out = s.out;
    rows = s.earlier ++ ((id, label) ∷ s.later);
    answers = s.answers;
    decodes = s.decodes;
    shows = labelled-first label id s.earlier s.later s.first;
  }

  -- The session after the list.
  pub listed : Session W → Session W
  listed s = record {
    world = (host.run workspace_list (argv h workspace_list) s.world).1;
    trace = workspace_list ∷ s.trace;
  }

  workspace_by_label-good :
      (label id : String) (s : Session W)
      → Lists label id s.world
      → workspace_by_label host h label s ≡ (good id, listed s)
  unfolding workspace_by_label issue decoded done_ ◌>>=◌ proceed listed
  workspace_by_label-good label id s l = rw (l.answers, l.decodes, l.shows) refl

  close_labelled-trace :
      (label id : String) (s : Session W)
      → Lists label id s.world
      → id ≢ ""
      → (close_labelled host h label s).1.trace ≡ workspace_close id ∷ workspace_list ∷ s.trace
  unfolding close_labelled attempt close_found issue choose done_ ◌>>=◌ ◌>>◌ proceed listed
  close_labelled-trace label id s l n =
      rw (workspace_by_label-good label id s l, ==_ne id "" n) refl

  -- The session after the launch and the delivery, however they end.
  abbrev pub tried : String → List String → String → Session W → Session W
  tried pane launch kickoff s =
      ((launch_in host h pane launch >> deliver_kickoff host h pane kickoff) s).1

  -- Once its workspace is open, the preflight ends by closing it, however the launch and the delivery
  -- end: when herdr, asked right after them, lists a workspace under the preflight's label, the
  -- preflight runs the list and then the close of that workspace, and nothing more.
  pub smoke_kickoff-closes :
      (dir first kickoff pane id : String) (rest : List String) (s mid : Session W)
      → open_workspace host h dir smoke_label s ≡ (good pane, mid)
      → Shown smoke_label id (tried pane (first ∷ rest) kickoff mid).world
      → id ≢ ""
      → (smoke_kickoff host h dir (first ∷ rest) kickoff s).1.trace
        ≡ workspace_close id ∷ workspace_list ∷ (tried pane (first ∷ rest) kickoff mid).trace
  unfolding smoke_kickoff finally ◌>>=◌
  smoke_kickoff-closes dir first kickoff pane id rest s mid opened l n =
      rw (smoke_kickoff, opened)
        (close_labelled-trace smoke_label id _ (Shown-Lists smoke_label id _ l) n)

  -- Under a label that herdr does not list, a cleanup runs nothing but the list: it can be repeated.
  pub cleanup-idle :
      (id : String) (s : Session W)
      → Lists id "" s.world
      → cleanup host h id s ≡ (good tt, listed s)
  unfolding cleanup choose done_ ◌>>=◌ proceed
  cleanup-idle id s l = rw (cleanup, workspace_by_label-good id "" s l) refl
