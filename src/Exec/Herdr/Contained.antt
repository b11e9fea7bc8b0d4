-- ===== src/Exec/Herdr/Contained.antt =====
-- What `Spawn` of internal/exec/herdr.go touches.
use hounds_ciai.Prelude.{
  ℕ, zero, suc, ◌+◌, String, Bool, true, false, ◌≡◌, ◌⊎◌, inl, inr, refl, In, ◌==◌, ◌∙◌, ap,
  string_eq, nat_eq,
}
use hounds_ciai.Exec.{AgentState, Spawn}
use hounds_ciai.Exec.Herdr.Shell.{
  Command, ◌>>◌, workspace_list, pane_list, workspace_close, pane_run, send_text, send_enter, pause,
  Herdr, Host, Answer, good, bad, Session, H, attempt, issue,
}
use hounds_ciai.Exec.Herdr.{
  list_panes, workspace_by_label, current_status, parse_root_pane_id, close_found, close_labelled,
  add_worktree, poll_accepted, kickoff_accepted, two_step, one_shot, try_delivery, deliver_kickoff,
  clear_stale, launch_in, open_workspace, spawn,
}
use hounds_ciai.Exec.Herdr.Readings.{worktree_dir, or_else}
use hounds_ciai.Exec.Herdr.Tracing.{
  Only, Only-done, Only-give_up, Only-bind, Only-then, Only-attempt, Only-choose, Only-decoded,
  Only-issue, Only-wait_for, Only-read_clock, Only-bind_good, bind-good, attempt-good,
}
use hounds_ciai.Exec.Herdr.Owned.{Listed, Created, Own, found-Listed, opened-Created}

module _ {W : Type 0} (host : Host W) (h : Herdr) (P : Command → Type 0) where
  module _ (panes : P pane_list) where
    Only-list_panes : Only P (list_panes host h)
    unfolding list_panes
    Only-list_panes = Only-bind P _ _ (Only-issue P host h pane_list panes) λ out. Only-decoded P _

    Only-current_status : (pane : String) → Only P (current_status host h pane)
    unfolding current_status
    Only-current_status pane = Only-bind P _ _ (Only-attempt P _ Only-list_panes) λ r. Only-done P _

    module _ (pauses : (d : ℕ) → P (pause d)) where
      Only-poll_accepted :
          (polls : ℕ) (pane : String) (before : AgentState) (deadline : ℕ)
          → Only P (poll_accepted host h polls pane before deadline)
      unfolding poll_accepted
      Only-poll_accepted zero pane before deadline = Only-give_up P _ _
      Only-poll_accepted (suc polls) pane before deadline =
          Only-bind P _ _ (Only-current_status pane) λ st.
            Only-choose P _ _ _ (λ _. Only-done P _)
              λ _. Only-bind P _ _ (Only-read_clock P host) λ t.
                Only-choose P _ _ _
                  (λ _. Only-bind P _ _ (Only-wait_for P host h.kickoff_ack_poll (pauses _)) λ on.
                    Only-choose P _ _ _ (λ _. Only-poll_accepted polls pane before deadline)
                      (λ _. Only-done P _))
                  (λ _. Only-done P _)

      Only-try_delivery :
          (pane : String) (before : AgentState) (send : H W (Unit {0}))
          → Only P send
          → Only P (try_delivery host h pane before send)
      unfolding try_delivery kickoff_accepted
      Only-try_delivery pane before send sends = Only-attempt P _ (
          Only-then P _ _ sends (
            Only-bind P _ _ (Only-read_clock P host) λ t.
              Only-poll_accepted (suc h.kickoff_ack_timeout) pane before
                (t + h.kickoff_ack_timeout)))

      Only-or_else :
          (next : H W (Unit {0})) (r : Answer Bool) → Only P next → Only P (or_else next r)
      unfolding or_else
      Only-or_else next (good true) n = Only-done P tt
      Only-or_else next (good false) n = n
      Only-or_else next (bad f) n = n

      module _ (pane kickoff : String) (typed : P (send_text pane kickoff))
          (entered : P (send_enter pane)) (ran : P (pane_run pane kickoff)) where
        Only-two_step : Only P (two_step host h pane kickoff)
        unfolding two_step
        Only-two_step =
            Only-then P _ _
              (Only-then P _ _
                (Only-then P _ _ (Only-issue P host h _ typed) (
                  Only-choose P _ _ _
                    (λ _. Only-then P _ _ (Only-wait_for P host _ (pauses _)) (Only-done P _))
                    (λ _. Only-done P _)))
                (Only-issue P host h _ entered))
              (Only-done P tt)

        pub Only-deliver_kickoff : Only P (deliver_kickoff host h pane kickoff)
        unfolding deliver_kickoff one_shot
        Only-deliver_kickoff = Only-bind P _ _ (Only-current_status pane) λ before.
            Only-choose P _ _ _ (λ _. Only-two_step)
              λ _. Only-bind P _ _ (Only-try_delivery pane before _ Only-two_step) λ r.
                Only-or_else _ r (
                  Only-bind P _ _
                    (Only-try_delivery pane before _
                      (Only-then P _ _ (Only-issue P host h _ ran) (Only-done P tt)))
                    λ r'. Only-or_else _ r' (Only-give_up P _ _))

module _ {W : Type 0} (host : Host W) (h : Herdr) (s : Spawn) (P : Command → Type 0)
    (own : (c : Command) → Own host h s c → P c) where
  wt : String
  wt = worktree_dir h s.repo_dir s.task_id

  Only-workspace_by_label : (label : String) → Only P (workspace_by_label host h label)
  unfolding workspace_by_label
  Only-workspace_by_label label =
      Only-bind P _ _ (Only-issue P host h _ (own workspace_list tt))
        λ out. Only-bind P _ _ (Only-decoded P _) λ ws. Only-done P _

  Only-close_found :
      (r : Answer String)
      → ((id : String) → r ≡ good id → (id == "") ≡ false → Listed host h s id)
      → Only P (close_found host h r)
  unfolding close_found
  Only-close_found (bad f) l = Only-done P tt
  Only-close_found (good id) l =
      Only-choose P _ _ _ (λ _. Only-done P tt)
        λ ne.
          Only-then P _ _
            (Only-attempt P _ (Only-issue P host h _ (own (workspace_close id) (l id refl ne))))
            (Only-done P tt)

  Only-close_labelled : Only P (close_labelled host h s.task_id)
  unfolding close_labelled
  Only-close_labelled =
      Only-bind_good P _ _ (Only-attempt P _ (Only-workspace_by_label s.task_id)) λ r t t' e.
        Only-close_found r (λ id q ne.
          found-Listed host h s id t t' (attempt-good _ t t' id (tried_as r id q t t' e)) ne)
    where
      tried_as :
          (r : Answer String) (id : String)
          → r ≡ good id
          → (t t' : Session W) → attempt (workspace_by_label host h s.task_id) t ≡ (good r, t')
          → attempt (workspace_by_label host h s.task_id) t ≡ (good (good id), t')
      tried_as r id q t t' e = e ∙ ap (λ (x : Answer String). (good x, t')) q

  -- A command whose failure is dropped.
  Only-dropped : (c : Command) → Own host h s c → Only P (attempt (issue host h c))
  Only-dropped c o = Only-attempt P _ (Only-issue P host h c (own c o))

  Only-clear_stale : Only P (clear_stale host h s wt)
  unfolding clear_stale wt
  Only-clear_stale =
      Only-then P _ _
        (Only-then P _ _
          (Only-then P _ _ (Only-then P _ _ (Only-dropped _ (refl, refl)) (Only-dropped _ refl))
            (Only-dropped _ refl))
          (Only-choose P _ _ _ (λ _. Only-done P tt)
            λ fresh. Only-then P _ _ (Only-dropped _ (refl, refl, fresh)) (Only-done P tt)))
        Only-close_labelled

  Only-add_worktree : Only P (add_worktree host h s wt)
  unfolding add_worktree wt
  Only-add_worktree =
      Only-choose P _ _ _
        (λ kept.
          Only-then P _ _
            (Only-then P _ _ (Only-dropped _ (refl, rw kept refl))
              (Only-issue P host h _ (own _ (refl, refl, refl, kept))))
            (Only-done P tt))
        (λ fresh.
          Only-then P _ _
            (Only-then P _ _ (Only-dropped _ (refl, rw fresh refl))
              (Only-issue P host h _ (own _ (refl, refl, refl, refl, fresh))))
            (Only-done P tt))

  Only-open_workspace : Only P (open_workspace host h wt s.task_id)
  unfolding open_workspace parse_root_pane_id wt
  Only-open_workspace = Only-bind P _ _ (Only-issue P host h _ (own _ (refl, refl))) λ out.
      Only-bind P _ _ (Only-decoded P _)
        λ pane. Only-choose P _ _ _ (λ _. Only-give_up P _ _) λ _. Only-done P pane

  Only-launch_in : (pane : String) → Created host h s pane → Only P (launch_in host h pane s.launch)
  unfolding launch_in
  Only-launch_in pane c =
      Only-then P _ _
        (Only-then P _ _ (Only-issue P host h _ (own _ (c, inl refl))) (Only-dropped _ c))
        (Only-done P tt)

  created :
      (pane : String) (t t' : Session W)
      → (clear_stale host h s wt >> add_worktree host h s wt >> open_workspace host h wt s.task_id)
          t
        ≡ (good pane, t')
      → Created host h s pane
  unfolding ◌>>◌ wt
  created pane t t' e =
      let (_, mid, _, last) =
        bind-good (clear_stale host h s wt >> add_worktree host h s wt)
          (λ _. open_workspace host h wt s.task_id) t t' pane e in
      opened-Created host h s pane mid t' last

  Only-spawn : Only P (spawn host h s)
  unfolding spawn wt
  Only-spawn =
      Only-bind_good P _ _
        (Only-then P _ _ (Only-then P _ _ Only-clear_stale Only-add_worktree) Only-open_workspace)
        λ pane t t' e.
          let c = created pane t t' e in
          Only-then P _ _
            (Only-then P _ _ (Only-launch_in pane c) (
              Only-deliver_kickoff host h P (own pane_list tt) (λ d. own (pause d) tt) pane
                s.kickoff (own _ (c, refl)) (own _ c) (own _ (c, inr refl))))
            (Only-done P _)

-- Whatever the processes answer, each command that a spawn runs acts on its own: it removes and adds
-- no worktree but the task's, deletes no branch but the task's and that only when the branch is not
-- to be preserved, checks the existing branch out only when it is, starts a fresh one only when it is
-- not and then at the spawn's base, opens a workspace only in that worktree, under the task's label,
-- closes no workspace but one that herdr lists under that label, and types nothing but the launch
-- command and the kickoff, in no pane but one that herdr answers for such a workspace.
pub spawn-Own :
    {W : Type 0} (host : Host W) (h : Herdr) (s : Spawn) (before : Session W) (c : Command)
    → In c (spawn host h s before).1.trace
    → In c before.trace ⊎ Own host h s c
spawn-Own host h s before c =
    Only-spawn host h s (λ d. In d before.trace ⊎ Own host h s d) (λ d o. inr o) before
      (λ d i. inl i) c
