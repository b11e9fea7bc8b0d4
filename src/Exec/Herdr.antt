-- ===== src/Exec/Herdr.antt =====
-- internal/exec/herdr.go: the methods of the herdr backend, by the commands that they run. The handle
-- that `Spawn` returns beside an error is dropped, as its callers drop it.
pub mod Shell
pub mod Readings
pub mod Tracing
pub mod Owned
pub mod Contained
pub mod Kickoff
pub mod Delivery
pub mod Teardown
use hounds_ciai.Prelude.{
  ℕ, zero, suc, ◌+◌, String, Bool, true, false, not, ◌&&◌, ◌||◌, Option, none, some, List, [], ◌∷◌,
  ◌==◌, string_eq, nat_eq, ltb, leb, if◌then◌else◌, find?,
}
use Prim.Native.String.{◌++◌ as text_append}
use hounds_ciai.Exec.{
  AgentState, working, blocked, done, idle, unknown, agent_state_text, normalize_state, Spawn,
}
use hounds_ciai.Exec.Hub.{PaneInfo}
use hounds_ciai.Exec.Herdr.Shell.{
  Command, worktree_remove, worktree_prune, branch_delete, fetch, worktree_add_existing,
  worktree_add_fresh, workspace_list, pane_list, workspace_create, workspace_close, pane_run,
  pane_wait_output, send_text, send_enter, pane_read, agent_wait, remove_all, Herdr, Host, Failure,
  no_root_pane, no_launch, out_of_polls, not_accepted, Answer, good, bad, H, done_, give_up,
  attempt, choose, issue, wait_for, read_clock, context_left, decoded, ◌>>=◌, ◌>>◌,
}
use hounds_ciai.Exec.Herdr.Readings.{
  worktree_dir, smoke_label, joined, labelled, pane_with, status_in, moved, or_else, finally,
  first_in,
}

module _ {W : Type 0} (host : Host W) (h : Herdr) where
  unfoldable pub list_panes : H W (List PaneInfo)
  list_panes = issue host h pane_list >>= λ out. decoded (host.panes_of out)

  unfoldable pub workspace_by_label : String → H W String
  unfolding labelled
  workspace_by_label label = do
    out ← issue host h workspace_list
    ws ← decoded (host.workspaces_of out)
    done_ (labelled label ws)

  unfoldable pub workspace_for_pane : String → H W String
  unfolding list_panes pane_with
  workspace_for_pane pane = do
    ps ← list_panes
    done_ (elim (pane_with pane ps) [ none ↦ "" | some p ↦ p.workspace_id ])

  unfoldable pub current_status : String → H W AgentState
  unfolding list_panes status_in
  current_status pane = do r ← attempt list_panes; done_ (status_in pane r)

  -- `parseRootPaneID`.
  unfoldable pub parse_root_pane_id : String → H W String
  parse_root_pane_id out = do
    pane ← decoded (host.root_pane_of out)
    choose (pane == "") (give_up no_root_pane) (done_ pane)

  -- Closes the workspace with the label, if the list shows one; every failure is dropped.
  unfoldable pub close_found : Answer String → H W (Unit {0})
  close_found (bad f) = done_ tt
  close_found (good id) =
      choose (id == "") (done_ tt) (attempt (issue host h (workspace_close id)) >> done_ tt)

  unfoldable pub close_labelled : String → H W (Unit {0})
  unfolding workspace_by_label close_found
  close_labelled label = attempt (workspace_by_label label) >>= close_found

  -- `addWorktree`.
  unfoldable pub add_worktree : Spawn → String → H W (Unit {0})
  add_worktree s wt =
      choose s.preserve_branch
        (attempt (issue host h (fetch s.repo_dir s.branch))
          >> issue host h (worktree_add_existing s.repo_dir wt s.branch)
          >> done_ tt)
        (attempt (issue host h (fetch s.repo_dir s.base))
          >> issue host h (worktree_add_fresh s.repo_dir s.branch wt s.base)
          >> done_ tt)

  -- The loop of `kickoffAccepted`, for a number of polls.
  unfoldable pub poll_accepted : ℕ → String → AgentState → ℕ → H W Bool
  unfolding current_status moved
  poll_accepted zero pane before deadline = give_up out_of_polls
  poll_accepted (suc polls) pane before deadline =
      let again = poll_accepted polls pane before deadline in
      current_status pane >>= λ st. choose (moved before st) (done_ true) (
        read_clock host >>= λ t.
        choose (ltb t deadline)
          (wait_for host h.kickoff_ack_poll >>= λ on. choose on again (done_ false)) (done_ false))

  -- `kickoffAccepted`. Time is counted in nanoseconds and each poll takes some, so as many polls as
  -- the timeout has nanoseconds, and one, are enough.
  unfoldable pub kickoff_accepted : String → AgentState → H W Bool
  unfolding poll_accepted
  kickoff_accepted pane before = do
    t ← read_clock host
    poll_accepted (suc h.kickoff_ack_timeout) pane before (t + h.kickoff_ack_timeout)

  -- The two methods of `deliverKickoff`.
  unfoldable pub two_step : String → String → H W (Unit {0})
  two_step pane kickoff =
      issue host h (send_text pane kickoff)
      >> choose (ltb 0 h.submit_delay) (wait_for host h.submit_delay >> done_ tt) (done_ tt)
      >> issue host h (send_enter pane)
      >> done_ tt

  unfoldable pub one_shot : String → String → H W (Unit {0})
  one_shot pane kickoff = issue host h (pane_run pane kickoff) >> done_ tt

  -- One delivery of the loop: whether it was sent and accepted.
  unfoldable pub try_delivery : String → AgentState → H W (Unit {0}) → H W (Answer Bool)
  unfolding kickoff_accepted
  try_delivery pane before send = attempt (send >> kickoff_accepted pane before)

  -- `deliverKickoff`.
  unfoldable pub deliver_kickoff : String → String → H W (Unit {0})
  unfolding current_status two_step one_shot try_delivery or_else
  deliver_kickoff pane kickoff = do
    before ← current_status pane
    choose (h.kickoff_ack_timeout == 0) (two_step pane kickoff) (
        try_delivery pane before (two_step pane kickoff)
        >>= or_else (
            try_delivery pane before (one_shot pane kickoff)
            >>= or_else (give_up (not_accepted pane))))

  -- `Spawn`, up to the worktree.
  unfoldable pub clear_stale : Spawn → String → H W (Unit {0})
  unfolding close_labelled
  clear_stale s wt =
      attempt (issue host h (worktree_remove s.repo_dir wt))
      >> attempt (issue host h (remove_all wt))
      >> attempt (issue host h (worktree_prune s.repo_dir))
      >> choose s.preserve_branch (done_ tt)
          (attempt (issue host h (branch_delete s.repo_dir s.branch)) >> done_ tt)
      >> close_labelled s.task_id

  -- A workspace at a directory, the agent launched in its pane, and a wait for its prompt.
  unfoldable pub launch_in : String → List String → H W (Unit {0})
  unfolding joined
  launch_in pane launch =
      issue host h (pane_run pane (joined launch))
      >> attempt (issue host h (pane_wait_output pane h.ready_match h.ready_timeout))
      >> done_ tt

  unfoldable pub open_workspace : String → String → H W String
  unfolding parse_root_pane_id
  open_workspace dir label = issue host h (workspace_create dir label) >>= parse_root_pane_id

  -- `Spawn`: the pane and the working directory.
  unfoldable pub spawn : Spawn → H W (String × String)
  unfolding clear_stale add_worktree open_workspace launch_in deliver_kickoff worktree_dir
  spawn s =
      let wt = worktree_dir h s.repo_dir s.task_id in
      clear_stale s wt >> add_worktree s wt >> open_workspace wt s.task_id >>= λ pane.
      launch_in pane s.launch >> deliver_kickoff pane s.kickoff >> done_ (pane, wt)

  -- `SmokeKickoff`.
  unfoldable pub smoke_kickoff : String → List String → String → H W (Unit {0})
  unfolding open_workspace launch_in deliver_kickoff close_labelled finally
  smoke_kickoff dir [] kickoff = give_up no_launch
  smoke_kickoff dir (l ∷ ls) kickoff = open_workspace dir smoke_label >>= λ pane.
      finally (launch_in pane (l ∷ ls) >> deliver_kickoff pane kickoff) (close_labelled smoke_label)

  unfoldable pub resolve : String → H W (Option (String × String))
  unfolding workspace_by_label list_panes first_in
  resolve label = workspace_by_label label >>= λ id.
      choose (id == "") (done_ none) (list_panes >>= λ ps. done_ (first_in id ps))

  -- `Close`.
  unfoldable pub close : String → H W (Unit {0})
  unfolding workspace_for_pane
  close pane = workspace_for_pane pane >>= λ id.
      choose (id == "") (done_ tt) (issue host h (workspace_close id) >> done_ tt)

  -- `Cleanup`.
  unfoldable pub cleanup : String → H W (Unit {0})
  unfolding workspace_by_label worktree_dir
  cleanup id = workspace_by_label id >>= λ ws. choose (ws == "") (done_ tt) (
      attempt (issue host h (worktree_remove h.repo_dir (worktree_dir h h.repo_dir id)))
      >> issue host h (workspace_close ws)
      >> done_ tt)

  -- `Read`.
  unfoldable pub read_pane : String → ℕ → H W String
  read_pane pane lines = issue host h (pane_read pane lines)

  -- `WaitState`: the sooner of the context's deadline and the configured bound.
  unfoldable pub wait_bound : Option ℕ → ℕ
  wait_bound none = h.wait_timeout
  wait_bound (some left) = if ltb 0 left && ltb left h.wait_timeout then left else h.wait_timeout

  -- The state that the agent is known to be in, and whether the wait reached its target.
  unfoldable pub wait_ended : String → AgentState → Answer String → H W (AgentState × Bool)
  unfolding current_status
  wait_ended pane target (good out) = done_ (target, true)
  wait_ended pane target (bad f) = current_status pane >>= λ st. done_ (st, false)

  unfoldable pub wait_state : String → AgentState → H W (AgentState × Bool)
  unfolding wait_bound wait_ended
  wait_state pane target = context_left host >>= λ left.
      attempt (issue host h (agent_wait pane target (wait_bound left))) >>= wait_ended pane target
