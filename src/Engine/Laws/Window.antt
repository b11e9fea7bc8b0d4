-- ===== src/Engine/Laws/Window.antt =====
-- The blocked window: what may close it.
use hounds_ciai.Prelude.{
  String, Bool, true, false, ◌≡◌, refl, Option, none, some, ◌==◌, ◌&&◌, string_eq, Bool-cases, inl,
  inr,
}
use hounds_ciai.Result.{Result, ok, err}
use hounds_ciai.Store.{Task}
use hounds_ciai.Engine.Steps.{Same}
use hounds_ciai.Engine.Runs.{
  Post, Same-refl, Runs, Runs-pure, Runs-raise, Runs-if, Runs-caught, Runs-bind, Runs-call,
  Runs-read, Runs-next, Runs-ask,
}
use hounds_ciai.Config.Types.{Action, Transition}
use hounds_ciai.Exec.{AgentState, working, blocked, done, idle, unknown, PaneEvent}
use hounds_ciai.Engine.Monad.{
  World, Engine, Sys, M, get_task, ◌>>=◌, continue, branch, pure, start_timer, blocked_bound,
  progress_bound, read_pane, Signal, context_done, state_timer, blocked_timer, progress_timer,
  stream_end, status_change,
}
use hounds_ciai.Engine.Waiting.{
  Armed, Wait, Round, finished, keep, progress_read_lines, pane_moved, reset_progress,
  on_progress_timer, idle_verdict, idle_gate, on_idle, send_alert, on_blocked, on_status, on_event,
  state_timed_out, on_signal,
}
use hounds_ciai.Engine.Quietly.Writes.{Runs-alert, Runs-record_agent_status}
use hounds_ciai.Engine.Quietly.Gates.{
  Runs-evaluate_gate, Runs-try_decision_verdict, Runs-evaluate_done,
}

-- The wait goes on only with the window open.
abbrev pub StillOpen : Round → Type 0
StillOpen (finished out) = Unit
StillOpen (keep w) = w.is_blocked ≡ true

abbrev is_working : AgentState → Bool
is_working working = true
is_working _ = false

abbrev works : Signal → Bool
works (status_change ev) = is_working ev.state
works _ = false

-- The signal tells that the agent of the pane works.
abbrev pub recovers : String → Signal → Bool
recovers pane (status_change ev) = ev.pane_id == pane && is_working ev.state
recovers pane _ = false

module _ {W : Type 0} (ext : World W) (e : Engine) (a : Armed) (w : Wait)
    (opened : w.is_blocked ≡ true) where
  module _ (o : Task) where
    abbrev Open : M W Round → Type 0
    Open m = Runs {W = W} e (Same o) StillOpen m

    idle_verdict_open : (v : Option String) → StillOpen (idle_verdict ext a w v)
    unfolding idle_verdict
    idle_verdict_open none = opened
    idle_verdict_open (some v) = tt

    idle_gate_open : (r : Result String) → StillOpen (idle_gate ext a w r)
    unfolding idle_gate
    idle_gate_open (err x) = opened
    idle_gate_open (ok v) = elim (Bool-cases (v == "pass")) [
      | inl h ↦ rw h tt
      | inr h ↦ rw h opened
    ]

    on_idle-Open : Open (on_idle ext e a w)
    unfolding on_idle
    on_idle-Open =
        Runs-if e _ _ _
          (λ _.
            Runs-next e _ _ (Runs-try_decision_verdict ext e o _)
              λ v. Runs-pure e _ (idle_verdict_open v))
          λ _.
            Runs-if e _ _ _
              (λ _.
                Runs-bind e _ _ (Runs-caught e _ (Runs-evaluate_gate ext e o a.done_t))
                  λ r _. Runs-pure e _ (idle_gate_open r))
              (λ _. Runs-pure e _ opened)

    send_alert_quiet :
        (act : Option Action) → Runs {W = W} e (Same o) (λ _. Unit {0}) (send_alert ext act)
    unfolding send_alert
    send_alert_quiet none = Runs-pure e _ tt
    send_alert_quiet (some act) = Runs-alert ext e o act.alert

    on_blocked-Open : Open (on_blocked ext a w)
    unfolding on_blocked
    on_blocked-Open = Runs-next e _ _ (send_alert_quiet _) λ _.
        Runs-if e _ _ _
          (λ _.
            Runs-ask e ext (start_timer blocked_bound a.blocked_for) _ (λ _ _. tt)
              λ _. Runs-pure e _ refl)
          (λ _. Runs-pure e _ opened)

    on_status-Open :
        (ev : PaneEvent)
        → works (status_change ev) ≡ false
        → (s : AgentState) → ev.state ≡ s
        → Open (on_status ext e a w s)
    unfolding on_status
    on_status-Open ev n done h =
        Runs-next e _ _ (Runs-evaluate_done ext e o a.done_t) λ v. Runs-pure e _ tt
    on_status-Open ev n idle h = on_idle-Open
    on_status-Open ev n blocked h = on_blocked-Open
    on_status-Open ev n working h = let p : works (status_change ev) ≡ true = rw h refl in cc
    on_status-Open ev n unknown h = Runs-pure e _ opened

    reset_progress_quiet : Runs {W = W} e (Same o) (λ _. Unit {0}) (reset_progress ext e)
    unfolding reset_progress
    reset_progress_quiet =
        Runs-if e _ _ _
          (λ _. Runs-call e ext (start_timer progress_bound e.no_progress) (λ _ _. tt))
          (λ _. Runs-pure e _ tt)

    pane_moved_quiet :
        (prev : Option String) → Runs {W = W} e (Same o) (λ _. Unit {0}) (pane_moved ext prev)
    unfolding pane_moved
    pane_moved_quiet prev = Runs-read e _ λ task _.
        Runs-if e _ _ _ (λ _. Runs-pure e _ tt)
          λ _.
            Runs-ask e ext (read_pane task.pane_id progress_read_lines) _ (λ _ _. tt)
              λ r. Runs-pure e _ tt

    timed_out_open : (t : Option Transition) → StillOpen (state_timed_out ext w t)
    unfolding state_timed_out
    timed_out_open none = opened
    timed_out_open (some t) = tt

    on_signal-Open : (x : Signal) → works x ≡ false → Open (on_signal ext e a w x)
    unfolding on_signal on_event on_progress_timer
    on_signal-Open context_done n = Runs-raise e _
    on_signal-Open state_timer n = Runs-pure e _ (timed_out_open a.timeout_t)
    on_signal-Open blocked_timer n =
        Runs-if e _ _ _ (λ _. Runs-read e _ λ task _. Runs-pure e _ tt) (λ _. Runs-pure e _ opened)
    on_signal-Open progress_timer n =
        Runs-if e _ _ _
          (λ _. Runs-next e _ _ (pane_moved_quiet _) λ m. Runs-read e _ λ task _.
            Runs-if e _ _ _ (λ _. Runs-next e _ _ reset_progress_quiet λ _. Runs-pure e _ opened)
              (λ _. Runs-pure e _ tt))
          (λ _. Runs-pure e _ opened)
    on_signal-Open stream_end n = Runs-raise e _
    on_signal-Open (status_change ev) n = Runs-read e _ λ task _.
        Runs-if e _ _ _ (λ _. Runs-pure e _ opened)
          λ _.
            Runs-next e _ _
              (Runs-next e _ _ reset_progress_quiet λ _. Runs-record_agent_status ext e o _)
              λ _. on_status-Open ev n ev.state refl

  -- An event of another pane leaves the wait as it is.
  elsewhere :
      (ev : PaneEvent) (s : Sys W)
      → (ev.pane_id == s.task.pane_id) ≡ false
      → on_signal ext e a w (status_change ev) s ≡ (ok (keep w), s)
  unfolding on_signal on_event get_task ◌>>=◌ continue branch pure
  elsewhere ev s other = rw other refl

  -- Once the blocked bound runs, only a working event of the task's own pane closes the window: after any
  -- other signal, the agent's other statuses, a second blocked event and every event of another pane
  -- among them, the wait is over or the window is still open.
  pub on_signal-window :
      (x : Signal) (s : Sys W)
      → recovers s.task.pane_id x ≡ false
      → Post StillOpen (on_signal ext e a w x s).0
  on_signal-window (status_change ev) s n = elim (Bool-cases (ev.pane_id == s.task.pane_id)) [
    | inl own ↦
        ((on_signal-Open s.task (status_change ev) (rw own at n)).at s (Same-refl s.task)).post
    | inr other ↦ rw (elsewhere ev s other) opened
  ]
  on_signal-window x s n = ((on_signal-Open s.task x refl).at s (Same-refl s.task)).post
