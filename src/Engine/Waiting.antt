-- ===== src/Engine/Waiting.antt =====
-- internal/engine/engine.go: the waits of a state. `awaitAgentState` is a loop over what its `select`
-- sees: the answer to the subscription is that list, in any order and of any length. A signal of a
-- channel that is not armed is never seen, so it is passed over. Timers are calls with their duration.
use hounds_ciai.Prelude.{
  ℕ, ◌+◌, ◌-◌, String, Bool, true, false, not, ◌&&◌, Option, none, some, List, [], ◌∷◌, ◌==◌,
  string_eq, ltb, leb, if◌then◌else◌, is_nonempty,
}
use hounds_ciai.Prelude.Maps.{lookup_or}
use hounds_ciai.Result.{Result, ok, err, suspended, ctx_done, stream_closed, still_waiting}
use hounds_ciai.Config.Types.{State, Transition, Action, decision_ref, gate_refs}
use hounds_ciai.Store.{state_entry_time}
use hounds_ciai.Exec.{
  AgentState, working, blocked, done, idle, unknown, agent_state_text, PaneEvent,
}
use hounds_ciai.Engine.Monad.{
  World, Engine, M, attached, now, start_timer, state_deadline, blocked_bound, progress_bound,
  read_pane, events, Signal, context_done, state_timer, blocked_timer, progress_timer, stream_end,
  status_change, pure, raise, branch, caught, get_task, get_store, from_result, call, statement_ok,
  parse, ◌>>=◌, ◌>>◌,
}
use hounds_ciai.Engine.Lookup.{find_event_transition, find_timeout_transition, escalation_target}
use hounds_ciai.Engine.Notices.{alert}
use hounds_ciai.Engine.Transitions.{record_agent_status}
use hounds_ciai.Engine.Gates.{evaluate_gate, evaluate_done, try_decision_verdict}
use hounds_ciai.Engine.Merging.{Outcome}

-- What the wait is set up with: the three transitions that it reacts to, and the blocked bound.
pub record Armed : Type 0 where
  pub done_t : Transition
  pub blocked_t : Option Transition
  pub timeout_t : Option Transition
  pub blocked_for : ℕ

-- What changes during the wait: whether the blocked timer runs, and the pane's last digest. SHA-256 is
-- taken as free of collisions: the digest is the text; `none` is a pane that could not be read.
pub record Wait : Type 0 where
  pub is_blocked : Bool
  pub digest : Option String

pub data Round : Type 0 where
  finished : Outcome → Round
  keep : Wait → Round

abbrev pub progress_read_lines : ℕ
progress_read_lines = 80

abbrev pub same_digest : Option String → String → Bool
same_digest none out = false
same_digest (some d) out = out == d

-- Where a bound that is no declared transition gives up to; the trigger names the bound.
unfoldable pub escalated : Engine → String → String → Outcome
escalated e state trigger =
    let (target, why) = escalation_target e.wf state in
    record { next = target; trigger = trigger; result = why }

abbrev pub branch_to : Transition → String → Outcome
branch_to t verdict = record {
  next = lookup_or verdict "" t.branch;
  trigger = "agent.done";
  result = verdict;
}

abbrev pub alert_of : Option Transition → Option Action
alert_of none = none
alert_of (some t) = t.action

module _ {W : Type 0} (ext : World W) where
  -- `StateEntryTime` of the task's own state.
  unfoldable pub entry_time : M W (Option ℕ)
  entry_time = do
    task ← get_task
    statement_ok ext attached
    d ← get_store
    pure (state_entry_time task.id task.current_state d)

  -- `evaluateGateOrSuspend`: once; a failed gate escalates when the time since entry is up.
  unfoldable pub past_deadline : Option ℕ → ℕ → M W Bool
  past_deadline none d = pure false
  past_deadline (some entry) d = do t ← call ext now; pure (leb (entry + d) t)

  unfoldable pub gate_failed : Engine → Transition → M W Outcome
  unfolding past_deadline
  gate_failed e timeout_t = do
    d ← parse e timeout_t.when.timeout
    entry ← entry_time
    late ← past_deadline entry d
    branch late (pure (record { next = timeout_t.to; trigger = "timeout"; result = "" }))
        (raise suspended)

  unfoldable pub evaluate_gate_or_suspend : Engine → Transition → Transition → M W Outcome
  unfolding gate_failed
  evaluate_gate_or_suspend e gate_t timeout_t = do
    verdict ← evaluate_gate ext e gate_t
    branch (verdict == "pass")
        (pure (record {
          next = lookup_or "pass" "" gate_t.branch;
          trigger = "status.changed";
          result = "pass";
        }))
        (gate_failed e timeout_t)

  -- `paneMoved`: a pane that cannot be read counts as moved.
  unfoldable pub pane_moved : Option String → M W (Bool × Option String)
  pane_moved prev = do
    task ← get_task
    branch (task.pane_id == "") (pure (true, prev)) (
        call ext (read_pane task.pane_id progress_read_lines) >>= λ r.
        pure (elim r [ err _ ↦ (true, prev) | ok out ↦ (not (same_digest prev out), some out) ]))

  -- `paneDigest`, the baseline.
  unfoldable pub pane_digest : M W (Option String)
  pane_digest = do
    task ← get_task
    branch (task.pane_id == "") (pure none) (
        call ext (read_pane task.pane_id progress_read_lines) >>= λ r.
        pure (elim r [ err _ ↦ none | ok out ↦ some out ]))

  unfoldable pub reset_progress : Engine → M W (Unit {0})
  reset_progress e =
      branch (ltb 0 e.no_progress) (call ext (start_timer progress_bound e.no_progress)) (pure tt)

  -- The progress timer is a suspicion; only an unmoved pane confirms it.
  unfoldable pub on_progress_timer : Engine → Wait → M W Round
  unfolding reset_progress
  on_progress_timer e w = do
    m ← pane_moved w.digest
    task ← get_task
    branch m.0 (reset_progress e >> pure (keep (record w { digest = m.1 })))
        (pure (finished (escalated e task.current_state "no_progress")))

  -- An idle agent: only its artifact ends the wait, and inside a blocked window no gate is asked.
  unfoldable pub idle_verdict : Armed → Wait → Option String → Round
  idle_verdict a w none = keep w
  idle_verdict a w (some v) = finished (branch_to a.done_t v)

  unfoldable pub idle_gate : Armed → Wait → Result String → Round
  idle_gate a w (err x) = keep w
  idle_gate a w (ok v) = if v == "pass" then finished (branch_to a.done_t v) else keep w

  unfoldable pub on_idle : Engine → Armed → Wait → M W Round
  unfolding idle_verdict idle_gate
  on_idle e a w =
      branch (not (decision_ref a.done_t == ""))
        (try_decision_verdict ext e (decision_ref a.done_t) >>= λ v. pure (idle_verdict a w v))
        (branch (is_nonempty (gate_refs a.done_t) && not w.is_blocked)
          (caught (evaluate_gate ext e a.done_t) >>= λ r. pure (idle_gate a w r)) (pure (keep w)))

  unfoldable pub send_alert : Option Action → M W (Unit {0})
  send_alert none = pure tt
  send_alert (some act) = alert ext act.alert

  -- The first blocked event starts the bound; a repeat must not restart it.
  unfoldable pub on_blocked : Armed → Wait → M W Round
  unfolding send_alert
  on_blocked a w = do
    send_alert (alert_of a.blocked_t)
    branch (ltb 0 a.blocked_for && not w.is_blocked)
        (call ext (start_timer blocked_bound a.blocked_for)
          >> pure (keep (record w { is_blocked = true })))
        (pure (keep w))

  -- The switch over the agent's status; only working counts as recovery.
  unfoldable pub on_status : Engine → Armed → Wait → AgentState → M W Round
  on_status e a w done =
      evaluate_done ext e a.done_t >>= λ verdict. pure (finished (branch_to a.done_t verdict))
  on_status e a w idle = on_idle e a w
  on_status e a w blocked = on_blocked a w
  on_status e a w working = pure (keep (record w { is_blocked = false }))
  on_status e a w unknown = pure (keep w)

  unfoldable pub on_event : Engine → Armed → Wait → PaneEvent → M W Round
  unfolding reset_progress
  on_event e a w ev = do
    task ← get_task
    branch (not (ev.pane_id == task.pane_id)) (pure (keep w)) (
        reset_progress e
        >> record_agent_status ext (agent_state_text ev.state)
        >> on_status e a w ev.state)

  unfoldable pub state_timed_out : Wait → Option Transition → Round
  state_timed_out w none = keep w
  state_timed_out w (some t) = finished (record { next = t.to; trigger = "timeout"; result = "" })

  -- One round of the `select`.
  unfoldable pub on_signal : Engine → Armed → Wait → Signal → M W Round
  unfolding state_timed_out
  on_signal e a w context_done = raise ctx_done
  on_signal e a w state_timer = pure (state_timed_out w a.timeout_t)
  on_signal e a w blocked_timer =
      branch w.is_blocked
        (get_task >>= λ task. pure (finished (escalated e task.current_state "blocked_timeout")))
        (pure (keep w))
  on_signal e a w progress_timer =
      branch (ltb 0 e.no_progress) (on_progress_timer e w) (pure (keep w))
  on_signal e a w stream_end = raise stream_closed
  on_signal e a w (status_change ev) = on_event e a w ev

  unfoldable pub unless_finished : (Wait → M W Outcome) → Round → M W Outcome
  unless_finished rest (finished o) = pure o
  unless_finished rest (keep w) = rest w

  unfoldable pub wait_loop : Engine → Armed → List Signal → Wait → M W Outcome
  wait_loop e a [] w = raise still_waiting
  wait_loop e a (x ∷ xs) w = on_signal e a w x >>= unless_finished (wait_loop e a xs)

  -- The state's deadline runs from its recorded entry, so it survives restarts.
  unfoldable pub remaining : Option ℕ → ℕ → M W ℕ
  remaining none d = pure d
  remaining (some entry) d = do t ← call ext now; pure (entry + d - t)

  unfoldable pub arm_state_timer : Engine → Option Transition → M W (Unit {0})
  unfolding remaining
  arm_state_timer e none = pure tt
  arm_state_timer e (some t) = do
    d ← parse e t.when.timeout
    entry ← entry_time
    left ← remaining entry d
    call ext (start_timer state_deadline left)

  unfoldable pub blocked_bound_of : Engine → M W ℕ
  blocked_bound_of e =
      branch (e.wf.policies.blocked_timeout == "") (pure 0) (parse e e.wf.policies.blocked_timeout)

  unfoldable pub arm_progress : Engine → M W (Option String)
  arm_progress e =
      branch (ltb 0 e.no_progress)
        (pane_digest >>= λ d. call ext (start_timer progress_bound e.no_progress) >> pure d)
        (pure none)

  -- `awaitAgentState`.
  unfoldable pub await_agent_state : Engine → State → Transition → M W Outcome
  await_agent_state e st done_t = do
    arm_state_timer e (find_timeout_transition st)
    bound ← blocked_bound_of e
    digest ← arm_progress e
    reply ← call ext events
    signals ← from_result reply
    wait_loop e
        (record {
          done_t = done_t;
          blocked_t = find_event_transition st "agent.blocked";
          timeout_t = find_timeout_transition st;
          blocked_for = bound;
        })
        signals (record { is_blocked = false; digest = digest })
