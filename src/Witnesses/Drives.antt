-- ===== src/Witnesses/Drives.antt =====
-- The theorems on drives at a concrete workflow, and where its drive ends.
use hounds_ciai.Prelude.{==_false, string_eq, ℕ, false, ◌≡◌, refl, [], ◌∷◌}
use hounds_ciai.Result.{ok}
use hounds_ciai.Config.Types.{dry_run_enabled}
use hounds_ciai.Config.Durations.{parse_duration, minute}
use hounds_ciai.Store.{
  Task, AuditEntry, Store, get_task, set_columns, update_rows, update_task, append_audit,
  state_entry_time,
}
use hounds_ciai.Engine.Steps.{Reach}
use hounds_ciai.Engine.Driving.{drive}
use hounds_ciai.Engine.Resuming.{reconcile}
use hounds_ciai.Engine.Recovering.{recover_all, swept, recover_all-swept}
use hounds_ciai.Engine.Refines.{drive-Reach}
use hounds_ciai.Engine.Reconciles.{reconcile-Reach}
use hounds_ciai.Engine.Promises.{Walk, Chained, drive-Walk, drive-Chained, drive-others}
use hounds_ciai.Config.Types.{State, Transition, gate_of}
use hounds_ciai.Exec.{blocked}
use hounds_ciai.Engine.Monad.{Sys, status_change}
use hounds_ciai.Engine.Lookup.{is_halt, is_terminal, escalation_target, find_event_transition}
use hounds_ciai.Engine.Gates.{eval_gates}
use hounds_ciai.Engine.Spawning.{check_retry_cap, bump_retry, count_retry}
use hounds_ciai.Engine.Waiting.{Armed, Wait, on_signal}
use hounds_ciai.Prelude.{nat_eq}
use hounds_ciai.Config.Durations.{hour, resolve_drive_deadline, longest_state_timeout}
use hounds_ciai.Config.Types.{is_timeout, state_of}
use hounds_ciai.Exec.{done, normalize_state}
use hounds_ciai.Engine.Lookup.{state_has_agent}
use hounds_ciai.Engine.Waiting.{await_agent_state}
use hounds_ciai.Engine.Driving.{await_trigger, fire_or_wait, wait_agent}
use hounds_ciai.Samples.{workflow, engine, task, other_task, world, start}

drive-Reach_example : Reach (engine false) start (drive world (engine false) 3 start).1
drive-Reach_example = drive-Reach world (engine false) 3 start

reconcile-Reach_example : Reach (engine false) start (reconcile world (engine false) start).1
reconcile-Reach_example = reconcile-Reach world (engine false) start

drive-Walk_example :
    Walk (workflow false) "implementing" (drive world (engine false) 3 start).1.task.current_state
drive-Walk_example = drive-Walk world (engine false) 3 start

drive-Chained_example :
    Chained
      (drive world (engine false) 3 start).1.task.id
      (drive world (engine false) 3 start).1.task.current_state
      (drive world (engine false) 3 start).1.store.log
unfolding Chained
drive-Chained_example = drive-Chained world (engine false) 3 start tt

drive-others_example :
    get_task "issue-8" (drive world (engine false) 3 start).1.store ≡ ok other_task
unfolding get_task
drive-others_example =
    drive-others world (engine false) 3 start "issue-8" (==_false "issue-8" "issue-7" refl)

abbrev halted : Sys ℕ
halted = record start { task = record task { current_state = "merged" } }

where_it_ends : (drive world (engine false) 3 start).1.task.current_state ≡ "merged"
unfolding hounds_ciai.Engine.Monad.pure hounds_ciai.Engine.Monad.raise
    hounds_ciai.Engine.Monad.continue hounds_ciai.Engine.Monad.◌>>=◌
    hounds_ciai.Engine.Monad.from_result hounds_ciai.Engine.Monad.caught
    hounds_ciai.Engine.Monad.or_raise hounds_ciai.Engine.Monad.branch
    hounds_ciai.Engine.Monad.get_task hounds_ciai.Engine.Monad.get_store
    hounds_ciai.Engine.Monad.set_task hounds_ciai.Engine.Monad.set_store
    hounds_ciai.Engine.Monad.call hounds_ciai.Engine.Monad.get_cause
    hounds_ciai.Engine.Monad.statement_ok hounds_ciai.Engine.Lookup.find_event_transition
    hounds_ciai.Engine.Lookup.find_timeout_transition hounds_ciai.Engine.Lookup.state_has_agent
    hounds_ciai.Engine.Lookup.is_terminal hounds_ciai.Engine.Lookup.is_halt
    hounds_ciai.Engine.Lookup.is_settled hounds_ciai.Engine.Lookup.first_alerting
    hounds_ciai.Engine.Lookup.alert_terminal hounds_ciai.Engine.Lookup.fallback_target
    hounds_ciai.Engine.Lookup.escalation_target hounds_ciai.Engine.Lookup.state_gates_on_commits
    hounds_ciai.Engine.Lookup.decision_ref_of hounds_ciai.Engine.Lookup.decision_for_state
    hounds_ciai.Engine.Lookup.done_branch_target hounds_ciai.Engine.Notices.recommend_for
    hounds_ciai.Engine.Notices.recent_rows hounds_ciai.Engine.Notices.cause_of
    hounds_ciai.Engine.Notices.send hounds_ciai.Engine.Notices.read_recent
    hounds_ciai.Engine.Notices.read_tail hounds_ciai.Engine.Notices.notify_terminal_alert
    hounds_ciai.Engine.Notices.append_row hounds_ciai.Engine.Notices.alert
    hounds_ciai.Engine.Transitions.persist hounds_ciai.Engine.Transitions.read_head
    hounds_ciai.Engine.Transitions.head_baseline hounds_ciai.Engine.Transitions.maybe_drain_label
    hounds_ciai.Engine.Transitions.enter_state hounds_ciai.Engine.Transitions.record_baseline
    hounds_ciai.Engine.Transitions.advance hounds_ciai.Engine.Transitions.record_agent_status
    hounds_ciai.Engine.Gates.is_mergeable hounds_ciai.Engine.Gates.found_pr
    hounds_ciai.Engine.Gates.pr_exists hounds_ciai.Engine.Gates.commits_moved
    hounds_ciai.Engine.Gates.gate_pass hounds_ciai.Engine.Gates.fetch_for
    hounds_ciai.Engine.Gates.need_status hounds_ciai.Engine.Gates.decide_gate
    hounds_ciai.Engine.Gates.gate_round hounds_ciai.Engine.Gates.or_fail
    hounds_ciai.Engine.Gates.eval_gates hounds_ciai.Engine.Gates.evaluate_gate
    hounds_ciai.Engine.Gates.accept_verdict hounds_ciai.Engine.Gates.try_decision_verdict
    hounds_ciai.Engine.Gates.evaluate_decision hounds_ciai.Engine.Gates.evaluate_done
    hounds_ciai.Engine.Spawning.launch_args hounds_ciai.Engine.Spawning.load_rubric
    hounds_ciai.Engine.Spawning.write hounds_ciai.Engine.Spawning.clear_verdict
    hounds_ciai.Engine.Spawning.reviewer_task hounds_ciai.Engine.Spawning.triage_task
    hounds_ciai.Engine.Spawning.read_feedback hounds_ciai.Engine.Spawning.feedback_task
    hounds_ciai.Engine.Spawning.issue_task hounds_ciai.Engine.Spawning.decision_task
    hounds_ciai.Engine.Spawning.work_task hounds_ciai.Engine.Spawning.agent_task
    hounds_ciai.Engine.Spawning.spawn_fresh hounds_ciai.Engine.Spawning.reuse
    hounds_ciai.Engine.Spawning.try_reuse hounds_ciai.Engine.Spawning.spawn
    hounds_ciai.Engine.Spawning.count_retry hounds_ciai.Engine.Spawning.bump_retry
    hounds_ciai.Engine.Spawning.check_retry_cap hounds_ciai.Engine.Waiting.escalated
    hounds_ciai.Engine.Waiting.entry_time hounds_ciai.Engine.Waiting.past_deadline
    hounds_ciai.Engine.Waiting.gate_failed hounds_ciai.Engine.Waiting.evaluate_gate_or_suspend
    hounds_ciai.Engine.Waiting.pane_moved hounds_ciai.Engine.Waiting.pane_digest
    hounds_ciai.Engine.Waiting.reset_progress hounds_ciai.Engine.Waiting.on_progress_timer
    hounds_ciai.Engine.Waiting.idle_verdict hounds_ciai.Engine.Waiting.idle_gate
    hounds_ciai.Engine.Waiting.on_idle hounds_ciai.Engine.Waiting.send_alert
    hounds_ciai.Engine.Waiting.on_blocked hounds_ciai.Engine.Waiting.on_status
    hounds_ciai.Engine.Waiting.on_event hounds_ciai.Engine.Waiting.state_timed_out
    hounds_ciai.Engine.Waiting.on_signal hounds_ciai.Engine.Waiting.unless_finished
    hounds_ciai.Engine.Waiting.wait_loop hounds_ciai.Engine.Waiting.remaining
    hounds_ciai.Engine.Waiting.arm_state_timer hounds_ciai.Engine.Waiting.blocked_bound_of
    hounds_ciai.Engine.Waiting.arm_progress hounds_ciai.Engine.Waiting.await_agent_state
    hounds_ciai.Engine.Merging.settle_merged hounds_ciai.Engine.Merging.merge_open_pr
    hounds_ciai.Engine.Merging.ensure_merged hounds_ciai.Engine.Merging.fire_merged
    hounds_ciai.Engine.Merging.merge_pr_action hounds_ciai.Engine.Merging.run_merge_action
    hounds_ciai.Engine.Driving.gate_once hounds_ciai.Engine.Driving.wait_status
    hounds_ciai.Engine.Driving.wait_agent hounds_ciai.Engine.Driving.fire_or_wait
    hounds_ciai.Engine.Driving.await_trigger hounds_ciai.Engine.Driving.count_round
    hounds_ciai.Engine.Driving.resume_or_give_up hounds_ciai.Engine.Driving.run_entry
    hounds_ciai.Engine.Driving.run_state hounds_ciai.Engine.Driving.maybe_cleanup
    hounds_ciai.Engine.Driving.halt hounds_ciai.Engine.Driving.apply_outcome
    hounds_ciai.Engine.Driving.round_result hounds_ciai.Engine.Driving.drive_round
    hounds_ciai.Engine.Driving.drive_loop hounds_ciai.Engine.Driving.settle_cancelled
    hounds_ciai.Engine.Driving.settle_deadline hounds_ciai.Engine.Driving.by_cause
    hounds_ciai.Engine.Driving.reclassify_cancel hounds_ciai.Engine.Driving.drive
    hounds_ciai.Engine.Resuming.pane_of hounds_ciai.Engine.Resuming.advance_to_done
    hounds_ciai.Engine.Resuming.with_pr hounds_ciai.Engine.Resuming.reconcile_pr
    hounds_ciai.Engine.Resuming.reconcile hounds_ciai.Store.stamp_new hounds_ciai.Store.set_columns
    hounds_ciai.Store.update_rows hounds_ciai.Store.update_task hounds_ciai.Store.list_tasks
    hounds_ciai.Store.append_audit hounds_ciai.Store.state_entry_time hounds_ciai.Store.audit
    hounds_ciai.Config.Types.state_of hounds_ciai.Config.Types.decision_of
    hounds_ciai.Config.Types.gate_of hounds_ciai.Config.Types.is_timeout
    hounds_ciai.Config.Types.dry_run_enabled hounds_ciai.Config.Types.decision_ref
    hounds_ciai.Config.Types.gate_refs hounds_ciai.Config.Types.targets
    hounds_ciai.Config.Types.has_timeout_transition hounds_ciai.Config.Types.source_label
    hounds_ciai.Config.Durations.parse_duration
    hounds_ciai.Config.Durations.resolve_no_progress_timeout
    hounds_ciai.Config.Durations.longest_state_timeout
    hounds_ciai.Config.Durations.resolve_drive_deadline hounds_ciai.Exec.normalize_state
where_it_ends = refl

-- The second task's snapshot does not parse, as none does in this world.
recover_all-swept_example :
    recover_all world
      (engine false)
      3
      (record task { workflow_snapshot = "" } ∷ other_task ∷ [])
      start
    ≡ (
      ok tt,
      swept world (engine false) 3 (record task { workflow_snapshot = "" } ∷ other_task ∷ []) start,
    )
recover_all-swept_example =
    recover_all-swept world (engine false) 3
      (record task { workflow_snapshot = "" } ∷ other_task ∷ []) start
