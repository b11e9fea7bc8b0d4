-- ===== src/Engine/Driving.antt =====
-- internal/engine/engine.go: one state's work, the interpreter loop, and how a drive ends.
use hounds_ciai.Prelude.{
  ℕ, zero, suc, String, Bool, true, false, not, ◌&&◌, ◌||◌, Option, none, some, ◌==◌, string_eq,
  find?, contains,
}
use hounds_ciai.Prelude.Maps.{lookup_or}
use hounds_ciai.Result.{Err, Result, ok, err, suspended, no_transition, still_waiting}
use hounds_ciai.Config.Types.{State, Entry, Transition, state_of}
use hounds_ciai.Engine.Monad.{
  World, Engine, M, attached, detached, Cause, operator_cancel, drive_deadline, shutdown, cleanup,
  pure, raise, branch, caught, get_task, get_cause, call, ◌>>=◌, ◌>>◌,
}
use hounds_ciai.Engine.Lookup.{
  cancel_state, auto_fired_events, find_event_transition, find_timeout_transition, is_terminal,
  is_halt, escalation_target,
}
use hounds_ciai.Engine.Notices.{append_row, notify_terminal_alert}
use hounds_ciai.Engine.Transitions.{advance}
use hounds_ciai.Engine.Gates.{evaluate_gate}
use hounds_ciai.Engine.Spawning.{spawn, check_retry_cap, has_pr}
use hounds_ciai.Engine.Merging.{Outcome, run_merge_action}
use hounds_ciai.Engine.Waiting.{evaluate_gate_or_suspend, await_agent_state}

module _ {W : Type 0} (ext : World W) where
  -- The waits of `runState`, after the entry: an auto-fired event, the agent, or the merge gate.
  unfoldable pub gate_once : Engine → Transition → M W Outcome
  gate_once e t = evaluate_gate ext e t >>= λ verdict. pure (record {
    next = lookup_or verdict "" t.branch;
    trigger = "status.changed";
    result = verdict;
  })

  unfoldable pub wait_status : Engine → Option Transition → Option Transition → M W Outcome
  unfolding gate_once
  wait_status e none timeout_t = raise no_transition
  wait_status e (some t) none = gate_once e t
  wait_status e (some t) (some timeout_t) = evaluate_gate_or_suspend ext e t timeout_t

  unfoldable pub wait_agent : Engine → State → Option Transition → M W Outcome
  unfolding wait_status
  wait_agent e st none =
      wait_status e (find_event_transition st "status.changed") (find_timeout_transition st)
  wait_agent e st (some done_t) = await_agent_state ext e st done_t

  abbrev pub auto_fired : State → Option Transition
  auto_fired st =
      find?
        (λ (t : Transition). not (t.when.event == "") && contains auto_fired_events t.when.event)
        st.transitions

  unfoldable pub fire_or_wait : Engine → State → Option Transition → M W Outcome
  unfolding wait_agent
  fire_or_wait e st (some t) = pure (record { next = t.to; trigger = t.when.event; result = "" })
  fire_or_wait e st none = wait_agent e st (find_event_transition st "agent.done")

  unfoldable pub await_trigger : Engine → State → M W Outcome
  unfolding fire_or_wait
  await_trigger e st = fire_or_wait e st (auto_fired st)

  -- A resume counts a retry only for a new round: the agent was not yet spawned for this state.
  unfoldable pub count_round : Engine → State → M W (Option String)
  count_round e st = do
    task ← get_task
    branch (not (task.pane_spawn_state == task.current_state)) (check_retry_cap ext e st)
        (pure none)

  unfoldable pub resume_or_give_up : Engine → State → Entry → Option String → M W Outcome
  resume_or_give_up e st en (some target) =
      pure (record { next = target; trigger = "retry_exhausted"; result = "" })
  resume_or_give_up e st en none = spawn ext e en.resume st >> await_trigger e st

  unfoldable pub run_entry : Engine → State → Option Entry → M W Outcome
  unfolding count_round resume_or_give_up
  run_entry e st none = await_trigger e st
  run_entry e st (some en) =
      branch (not (en.spawn == "")) (spawn ext e en.spawn st >> await_trigger e st) (
        branch (not (en.resume == "")) (count_round e st >>= resume_or_give_up e st en) (
          branch (not (en.action == "")) (run_merge_action ext e st en.action)
            (await_trigger e st)))

  -- `runState`.
  unfoldable pub run_state : Engine → M W Outcome
  run_state e = do
    task ← get_task
    let st = state_of e.wf task.current_state
    run_entry e st st.entry

  -- `maybeCleanup`: a terminal with no PR and no alert loses its worktree, best effort.
  unfoldable pub maybe_cleanup : Engine → M W (Unit {0})
  maybe_cleanup e = do
    task ← get_task
    branch
        (has_pr task.pr_number
          || not (is_terminal e.wf task.current_state)
          || (state_of e.wf task.current_state).alert)
        (pure tt) (call ext (cleanup task.id) >> pure tt)

  unfoldable pub halt : Engine → Bool → M W String
  halt e false = get_task >>= λ task. pure task.current_state
  halt e true =
      notify_terminal_alert ext e attached
      >> maybe_cleanup e
      >> (get_task >>= λ task. pure task.current_state)

  -- An outcome with no next state is a halt that an audit row records; any other is a transition.
  unfoldable pub apply_outcome : Engine → Outcome → M W Bool
  apply_outcome e o = do
    task ← get_task
    branch (o.next == "")
        (append_row ext attached task.current_state task.current_state o.trigger o.result
          >> pure false)
        (advance ext e attached o.next o.trigger o.result >> pure true)

  -- One round of `driveLoop` in a state that does not halt: whether the loop goes on. A suspension
  -- ends it without an error.
  unfoldable pub round_result : Engine → Result Outcome → M W Bool
  round_result e (ok o) = apply_outcome e o
  round_result e (err suspended) = pure false
  round_result e (err x) = raise x

  unfoldable pub drive_round : Engine → M W Bool
  unfolding round_result
  drive_round e = caught (run_state e) >>= round_result e

  -- `driveLoop`, for a number of rounds; `transitioned` is set once a round moved the task.
  unfoldable pub drive_loop : Engine → ℕ → Bool → M W String
  unfolding halt
  drive_loop e zero transitioned = raise still_waiting
  drive_loop e (suc rounds) transitioned =
      let next = drive_loop e rounds true in
      get_task >>= λ task.
      branch (is_halt e task.current_state) (halt e transitioned)
        (drive_round e >>= λ moved. branch moved next (get_task >>= λ t. pure t.current_state))

  -- `settleCancelled` and `settleDeadline`: an advance on a detached context.
  unfoldable pub settle_cancelled : Engine → M W String
  settle_cancelled e = advance ext e detached cancel_state "operator.cancel" "" >> pure cancel_state

  unfoldable pub settle_deadline : Engine → M W String
  settle_deadline e = do
    task ← get_task
    let (target, why) = escalation_target e.wf task.current_state
    advance ext e detached target "drive_deadline" why
    notify_terminal_alert ext e detached
    pure target

  -- `reclassifyCancel`: an error under a cancelled or reaped context becomes a settle.
  unfoldable pub by_cause : Engine → Err → Option Cause → M W String
  by_cause e x (some operator_cancel) = settle_cancelled e
  by_cause e x (some drive_deadline) = settle_deadline e
  by_cause e x (some shutdown) = raise x
  by_cause e x none = raise x

  unfoldable pub reclassify_cancel : Engine → Result String → M W String
  unfolding by_cause
  reclassify_cancel e (ok state) = pure state
  reclassify_cancel e (err x) = get_cause ext >>= by_cause e x

  -- `drive`.
  unfoldable pub drive : Engine → ℕ → M W String
  drive e rounds = caught (drive_loop e rounds false) >>= reclassify_cancel e
