-- ===== src/Engine/Quietly/Waiting.antt =====
-- The lemmas on the waits of a state: their steps and their outcomes.
use hounds_ciai.Prelude.{
  ℕ, String, ◌≡◌, refl, Option, none, some, List, [], ◌∷◌, ◌==◌, string_eq, In, Bool-cases, inl,
  inr,
}
use hounds_ciai.Result.{Result, ok, err}
use hounds_ciai.Store.{Task}
use hounds_ciai.Engine.Steps.{Same}
use hounds_ciai.Engine.Runs.{
  Runs, Runs-pure, Runs-raise, Runs-or_raise, Runs-if, Runs-caught, Runs-bind, Runs-get_store,
  Runs-call, Runs-read, Runs-next, Runs-ask, Runs-ok,
}
use hounds_ciai.Config.Types.{Transition, Action, state_of}
use hounds_ciai.Exec.{AgentState, working, blocked, done, idle, unknown, PaneEvent}
use hounds_ciai.Engine.Monad.{
  World, Engine, M, attached, now, start_timer, state_deadline, blocked_bound, progress_bound,
  read_pane, events, Signal, context_done, state_timer, blocked_timer, progress_timer, stream_end,
  status_change, call, from_result, raise, pure,
}
use hounds_ciai.Engine.Merging.{Outcome}
use hounds_ciai.Engine.Waiting.{
  Armed, Wait, Round, finished, keep, progress_read_lines, entry_time, past_deadline, gate_failed,
  evaluate_gate_or_suspend, pane_moved, pane_digest, reset_progress, on_progress_timer,
  idle_verdict, idle_gate, on_idle, send_alert, on_blocked, on_status, on_event, state_timed_out,
  on_signal, unless_finished, wait_loop, remaining, arm_state_timer, blocked_bound_of, arm_progress,
  await_agent_state,
}
use hounds_ciai.Engine.Quietly.Writes.{Runs-statement_ok, Runs-alert, Runs-record_agent_status}
use hounds_ciai.Engine.Quietly.Gates.{
  Runs-evaluate_gate, Runs-try_decision_verdict, Runs-evaluate_done,
}
use hounds_ciai.Engine.Quietly.Leads.{
  Leads, find_timeout-In, Leads-to, Leads-branch, Leads-escalated,
}

module _ {W : Type 0} (ext : World W) (e : Engine) (o : Task) where
  abbrev Still : {A : Type 0} → M W A → Type 0
  Still m = Runs {W = W} e (Same o) (λ _. Unit {0}) m

  -- The transition is one of the state's.
  abbrev pub Declared : Transition → Type 0
  Declared t = In t (state_of e.wf o.current_state).transitions

  abbrev pub LeadsOn : Outcome → Type 0
  LeadsOn out = Leads e.wf o.current_state out

  parse_quiet : (d : String) → Still (hounds_ciai.Engine.Monad.parse e d)
  parse_quiet d = Runs-or_raise e (e.parse_duration d) _ (λ _ _. tt)

  entry_time_quiet : Still (entry_time ext)
  unfolding entry_time
  entry_time_quiet = Runs-read e _ λ task _.
      Runs-next e _ _ (Runs-statement_ok ext e attached)
        λ _. Runs-next e _ _ (Runs-get_store e) λ d. Runs-pure e _ tt

  past_deadline_quiet : (entry : Option ℕ) (d : ℕ) → Still (past_deadline ext entry d)
  unfolding past_deadline
  past_deadline_quiet none d = Runs-pure e _ tt
  past_deadline_quiet (some n) d = Runs-ask e ext now _ (λ _ _. tt) λ t. Runs-pure e _ tt

  gate_failed_leads :
      (t : Transition) → Declared t → Runs {W = W} e (Same o) LeadsOn (gate_failed ext e t)
  unfolding gate_failed
  gate_failed_leads t m = Runs-next e _ _ (parse_quiet _) λ d.
      Runs-next e _ _ entry_time_quiet λ entry.
        Runs-next e _ _ (past_deadline_quiet entry d) λ late.
          Runs-if e late _ _ (λ _. Runs-pure e _ (Leads-to e.wf o.current_state t "timeout" "" m))
            (λ _. Runs-raise e _)

  pub Runs-evaluate_gate_or_suspend :
      (g t : Transition)
      → Declared g
      → Declared t
      → Runs {W = W} e (Same o) LeadsOn (evaluate_gate_or_suspend ext e g t)
  unfolding evaluate_gate_or_suspend
  Runs-evaluate_gate_or_suspend g t mg mt =
      Runs-next e _ _ (Runs-evaluate_gate ext e o g) λ verdict.
        Runs-if e _ _ _
          (λ _.
            Runs-pure e _ (Leads-branch e.wf o.current_state g "pass" "status.changed" "pass" mg))
          (λ _. gate_failed_leads t mt)

  pane_moved_quiet : (prev : Option String) → Still (pane_moved ext prev)
  unfolding pane_moved
  pane_moved_quiet prev = Runs-read e _ λ task _.
      Runs-if e _ _ _ (λ _. Runs-pure e _ tt)
        λ _.
          Runs-ask e ext (read_pane task.pane_id progress_read_lines) _ (λ _ _. tt)
            λ r. Runs-pure e _ tt

  pane_digest_quiet : Still (pane_digest ext)
  unfolding pane_digest
  pane_digest_quiet = Runs-read e _ λ task _.
      Runs-if e _ _ _ (λ _. Runs-pure e _ tt)
        λ _.
          Runs-ask e ext (read_pane task.pane_id progress_read_lines) _ (λ _ _. tt)
            λ r. Runs-pure e _ tt

  reset_progress_quiet : Still (reset_progress ext e)
  unfolding reset_progress
  reset_progress_quiet =
      Runs-if e _ _ _ (λ _. Runs-call e ext (start_timer progress_bound e.no_progress) (λ _ _. tt))
        (λ _. Runs-pure e _ tt)

  -- A round that ends the wait leads along an edge.
  abbrev pub RoundLeads : Round → Type 0
  RoundLeads (finished out) = LeadsOn out
  RoundLeads (keep w) = Unit

  on_progress_timer_leads :
      (w : Wait) → Runs {W = W} e (Same o) RoundLeads (on_progress_timer ext e w)
  unfolding on_progress_timer
  on_progress_timer_leads w = Runs-next e _ _ (pane_moved_quiet _) λ m. Runs-read e _ λ task h.
      Runs-if e _ _ _ (λ _. Runs-next e _ _ reset_progress_quiet λ _. Runs-pure e _ tt)
        (λ _.
          Runs-pure e _
            (Leads-escalated e o.current_state task.current_state "no_progress" h.state))

  module _ (a : Armed) (done_in : Declared a.done_t) where
    idle_verdict_leads : (w : Wait) (v : Option String) → RoundLeads (idle_verdict ext a w v)
    unfolding idle_verdict
    idle_verdict_leads w none = tt
    idle_verdict_leads w (some v) =
        Leads-branch e.wf o.current_state a.done_t v "agent.done" v done_in

    idle_gate_leads : (w : Wait) (r : Result String) → RoundLeads (idle_gate ext a w r)
    unfolding idle_gate
    idle_gate_leads w (err x) = tt
    idle_gate_leads w (ok v) = elim (Bool-cases (v == "pass")) [
      | inl h ↦ rw h (Leads-branch e.wf o.current_state a.done_t v "agent.done" v done_in)
      | inr h ↦ rw h tt
    ]

    on_idle_leads : (w : Wait) → Runs {W = W} e (Same o) RoundLeads (on_idle ext e a w)
    unfolding on_idle
    on_idle_leads w =
        Runs-if e _ _ _
          (λ _.
            Runs-next e _ _ (Runs-try_decision_verdict ext e o _)
              λ v. Runs-pure e _ (idle_verdict_leads w v))
          λ _.
            Runs-if e _ _ _
              (λ _.
                Runs-bind e _ _ (Runs-caught e _ (Runs-evaluate_gate ext e o a.done_t))
                  λ r _. Runs-pure e _ (idle_gate_leads w r))
              (λ _. Runs-pure e _ tt)

    send_alert_quiet : (act : Option Action) → Still (send_alert ext act)
    unfolding send_alert
    send_alert_quiet none = Runs-pure e _ tt
    send_alert_quiet (some act) = Runs-alert ext e o act.alert

    on_blocked_leads : (w : Wait) → Runs {W = W} e (Same o) RoundLeads (on_blocked ext a w)
    unfolding on_blocked
    on_blocked_leads w = Runs-next e _ _ (send_alert_quiet _) λ _.
        Runs-if e _ _ _
          (λ _.
            Runs-ask e ext (start_timer blocked_bound a.blocked_for) _ (λ _ _. tt)
              λ _. Runs-pure e _ tt)
          (λ _. Runs-pure e _ tt)

    on_status_leads :
        (w : Wait) (s : AgentState) → Runs {W = W} e (Same o) RoundLeads (on_status ext e a w s)
    unfolding on_status
    on_status_leads w done =
        Runs-next e _ _ (Runs-evaluate_done ext e o a.done_t)
          λ v. Runs-pure e _ (Leads-branch e.wf o.current_state a.done_t v "agent.done" v done_in)
    on_status_leads w idle = on_idle_leads w
    on_status_leads w blocked = on_blocked_leads w
    on_status_leads w working = Runs-pure e _ tt
    on_status_leads w unknown = Runs-pure e _ tt

    on_event_leads :
        (w : Wait) (ev : PaneEvent) → Runs {W = W} e (Same o) RoundLeads (on_event ext e a w ev)
    unfolding on_event
    on_event_leads w ev = Runs-read e _ λ task _.
        Runs-if e _ _ _ (λ _. Runs-pure e _ tt)
          λ _.
            Runs-next e _ _
              (Runs-next e _ _ reset_progress_quiet λ _. Runs-record_agent_status ext e o _)
              λ _. on_status_leads w ev.state

    module _ (timeout_in : (t : Transition) → a.timeout_t ≡ some t → Declared t) where
      timed_out_leads :
          (w : Wait) (t : Option Transition)
          → ((u : Transition) → t ≡ some u → Declared u)
          → RoundLeads (state_timed_out ext w t)
      unfolding state_timed_out
      timed_out_leads w none m = tt
      timed_out_leads w (some t) m = Leads-to e.wf o.current_state t "timeout" "" (m t refl)

      on_signal_leads :
          (w : Wait) (x : Signal) → Runs {W = W} e (Same o) RoundLeads (on_signal ext e a w x)
      unfolding on_signal
      on_signal_leads w context_done = Runs-raise e _
      on_signal_leads w state_timer = Runs-pure e _ (timed_out_leads w a.timeout_t timeout_in)
      on_signal_leads w blocked_timer =
          Runs-if e _ _ _
            (λ _. Runs-read e _ λ task h.
              Runs-pure e _
                (Leads-escalated e o.current_state task.current_state "blocked_timeout" h.state))
            (λ _. Runs-pure e _ tt)
      on_signal_leads w progress_timer =
          Runs-if e _ _ _ (λ _. on_progress_timer_leads w) (λ _. Runs-pure e _ tt)
      on_signal_leads w stream_end = Runs-raise e _
      on_signal_leads w (status_change ev) = on_event_leads w ev

      unless_finished_leads :
          (rest : Wait → M W Outcome) (r : Round)
          → RoundLeads r
          → ((w : Wait) → Runs {W = W} e (Same o) LeadsOn (rest w))
          → Runs {W = W} e (Same o) LeadsOn (unless_finished ext rest r)
      unfolding unless_finished
      unless_finished_leads rest (finished out) q k = Runs-pure e out q
      unless_finished_leads rest (keep w) q k = k w

      wait_loop_leads :
          (xs : List Signal) (w : Wait) → Runs {W = W} e (Same o) LeadsOn (wait_loop ext e a xs w)
      unfolding wait_loop
      wait_loop_leads [] w = Runs-raise e _
      wait_loop_leads (x ∷ xs) w =
          Runs-bind e _ _ (on_signal_leads w x)
            λ r q. unless_finished_leads (wait_loop ext e a xs) r q (wait_loop_leads xs)

  remaining_quiet : (entry : Option ℕ) (d : ℕ) → Still (remaining ext entry d)
  unfolding remaining
  remaining_quiet none d = Runs-pure e _ tt
  remaining_quiet (some n) d = Runs-ask e ext now _ (λ _ _. tt) λ t. Runs-pure e _ tt

  arm_state_timer_quiet : (t : Option Transition) → Still (arm_state_timer ext e t)
  unfolding arm_state_timer
  arm_state_timer_quiet none = Runs-pure e _ tt
  arm_state_timer_quiet (some t) = Runs-next e _ _ (parse_quiet _) λ d.
      Runs-next e _ _ entry_time_quiet λ entry.
        Runs-next e _ _ (remaining_quiet entry d)
          λ left. Runs-call e ext (start_timer state_deadline left) (λ _ _. tt)

  arm_progress_quiet : Still (arm_progress ext e)
  unfolding arm_progress
  arm_progress_quiet =
      Runs-if e _ _ _
        (λ _. Runs-next e _ _ pane_digest_quiet λ d.
          Runs-ask e ext (start_timer progress_bound e.no_progress) _ (λ _ _. tt)
            λ _. Runs-pure e _ tt)
        (λ _. Runs-pure e _ tt)

  pub Runs-await_agent_state :
      (t : Transition)
      → Declared t
      → Runs {W = W} e (Same o) LeadsOn (await_agent_state ext e (state_of e.wf o.current_state) t)
  unfolding await_agent_state blocked_bound_of
  Runs-await_agent_state t m = Runs-next e _ _ (arm_state_timer_quiet _) λ _.
      Runs-next e _ _ (Runs-if e _ _ _ (λ _. Runs-pure e _ tt) (λ _. parse_quiet _)) λ bound.
        Runs-next e _ _ arm_progress_quiet λ digest.
          Runs-ask e ext events _ (λ _ _. tt)
            λ reply. Runs-ok e reply _ λ signals.
              wait_loop_leads _ m (find_timeout-In (state_of e.wf o.current_state)) signals _
