-- ===== src/Witnesses/Operations.antt =====
-- The theorems on single operations of the interpreter at concrete data.
use hounds_ciai.Prelude.{==_false, string_eq, ℕ, true, false, ◌≡◌, refl, none, some, [], ◌∷◌}
use hounds_ciai.Result.{ok}
use hounds_ciai.Config.Durations.{minute}
use hounds_ciai.Prelude.Maps.{lookup_or}
use hounds_ciai.Config.Types.{State, Transition, gate_of}
use hounds_ciai.Github.{checks_green}
use hounds_ciai.Exec.{blocked}
use hounds_ciai.Engine.Monad.{Sys, status_change}
use hounds_ciai.Engine.Lookup.{find_event_transition}
use hounds_ciai.Engine.Gates.{eval_gates}
use hounds_ciai.Engine.Spawning.{check_retry_cap, bump_retry, count_retry}
use hounds_ciai.Engine.Waiting.{Armed, Wait, on_signal}
use hounds_ciai.Engine.Runs.{Post}
use hounds_ciai.Engine.Laws.Retries.{check_retry_cap_lem}
use hounds_ciai.Engine.Laws.GateRuns.{holds, eval_gates-all}
use hounds_ciai.Engine.Laws.Window.{StillOpen, on_signal-window}
use hounds_ciai.Prelude.{nat_eq, here, there}
use hounds_ciai.Config.Types.{state_of}
use hounds_ciai.Prelude.{◌⊎◌}
use hounds_ciai.Engine.Lookup.{state_has_agent}
use hounds_ciai.Engine.Waiting.{await_agent_state}
use hounds_ciai.Engine.Driving.{await_trigger, fire_or_wait, wait_agent}
use hounds_ciai.Engine.Executable.{
  Unshadowed, acts, progresses, some_progresses, drivable, stuck_states, check_executable, Progress,
  check_executable_lem,
}
use hounds_ciai.Samples.{workflow, engine, task, world, start, on, implementing, merged_status}

abbrev exhausted : Transition
exhausted = record {
  when = on "retry_exhausted";
  evaluate = none;
  to = "stuck";
  branch = [];
  action = none;
}

abbrev revising : State
revising = record implementing { transitions = exhausted ∷ [] }

abbrev retried : Sys ℕ
retried = record start { task = record task { retry_counts = ("implementing", 1) ∷ [] } }

check_retry_cap_example :
    (check_retry_cap world (engine false) revising retried).0 ≡ ok (some "stuck")
    × (lookup_or "implementing" 0
          (check_retry_cap world (engine false) revising retried).1.task.retry_counts
        ≡ 2)
unfolding find_event_transition check_retry_cap bump_retry count_retry
    hounds_ciai.Engine.Monad.◌>>=◌ hounds_ciai.Engine.Monad.continue
    hounds_ciai.Engine.Monad.get_task hounds_ciai.Engine.Monad.set_task
    hounds_ciai.Engine.Monad.branch hounds_ciai.Engine.Monad.or_raise hounds_ciai.Engine.Monad.pure
check_retry_cap_example =
    check_retry_cap_lem world (engine false) revising exhausted 1 retried refl refl

eval_gates-all_example :
    eval_gates world (engine false) ("checks" ∷ []) (some merged_status) start ≡ (ok "pass", start)
unfolding holds checks_green gate_of
eval_gates-all_example =
    eval_gates-all world (engine false) merged_status (==_false "abc" "" refl) ("checks" ∷ []) start
      refl

abbrev in_window : Wait
in_window = record { is_blocked = true; digest = none }

abbrev armed : Armed
armed = record { done_t = exhausted; blocked_t = none; timeout_t = none; blocked_for = minute }

on_signal-window_example :
    Post StillOpen
      (on_signal world
        (engine false)
        armed
        in_window
        (status_change (record { pane_id = ""; state = blocked }))
        start).0
on_signal-window_example =
    on_signal-window world (engine false) armed in_window refl
      (status_change (record { pane_id = ""; state = blocked })) start refl

accepted : check_executable (workflow false) ≡ []
unfolding check_executable stuck_states state_of drivable acts some_progresses progresses
    state_has_agent
accepted = refl

check_executable_example :
    Unshadowed (state_of (workflow false) "merging")
    ⊎ Progress (state_of (workflow false) "merging")
unfolding state_of
check_executable_example =
    check_executable_lem (workflow false) "merging" (there here) accepted refl

-- A state with no agent whose status transition is shadowed by one on agent.done is accepted, and
-- waits for an agent that it never spawns.
abbrev shadowed : State
shadowed = record {
  entry = none;
  transitions =
      record exhausted { when = on "agent.done" }
      ∷ record exhausted { when = on "status.changed" }
      ∷ [];
  terminal = "";
  wait_for = "";
  alert = false;
}

shadowed-drivable : drivable shadowed ≡ true
unfolding drivable acts state_has_agent some_progresses progresses
shadowed-drivable = refl

shadowed-waits :
    await_trigger world (engine false) shadowed
    ≡ await_agent_state world (engine false) shadowed (record exhausted { when = on "agent.done" })
unfolding await_trigger fire_or_wait wait_agent find_event_transition
shadowed-waits = refl
