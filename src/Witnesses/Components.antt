-- ===== src/Witnesses/Components.antt =====
-- The theorems on the store, GitHub, durations, the scheduler and the event hub at concrete data.
use hounds_ciai.Prelude.{
  ℕ, ◌<◌, arith, inl, ==_false, string_eq, String, true, false, ◌≡◌, refl, none, some, [], ◌∷◌, ◌*◌,
}
use hounds_ciai.Result.{ok}
use hounds_ciai.Config.Durations.{parse_duration, minute}
use hounds_ciai.Store.{Task, AuditEntry, Store, get_task, update_task}
use hounds_ciai.Store.Laws.{Overwritten, update_task-get_task}
use hounds_ciai.Config.Types.{Transition}
use hounds_ciai.Github.{Check, Review, PrView, decisive_review, note_review, latest_reviews}
use hounds_ciai.Prelude.Sorting.{str_leb}
use hounds_ciai.Github.Reviews.{latest_reviews-last}
use hounds_ciai.Prelude.{◌+◌, ◌≤◌, if◌then◌else◌, nat_eq, here, there}
use hounds_ciai.Prelude.Maps.{has_key, lookup}
use hounds_ciai.Config.Durations.{
  hour, resolve_drive_deadline, longest_state_timeout, doubling_limit,
}
use hounds_ciai.Config.Types.{is_timeout, state_of}
use hounds_ciai.Config.Durations.Deadline.{resolve_drive_deadline_above}
use hounds_ciai.Scheduler.{
  Sched, readiness, add, send_or_release, claim_and_send, enqueue_ready, enqueue_one, enqueue,
  receive,
}
use hounds_ciai.Scheduler.Counting.{count}
use hounds_ciai.Scheduler.Claims.{Reachable-Claimed}
use hounds_ciai.Scheduler.Steps.{polls, receives, empty, begins, goes_on}
use hounds_ciai.Exec.{done, normalize_state}
use hounds_ciai.Exec.Hub.{Hub, PaneInfo, subscribe, publish, broadcast}
use hounds_ciai.Exec.Hub.Telling.{
  idle_hub, begins as Hub_begins, goes_on as Hub_goes_on, subscribes, polled, Told, Reachable-Told,
}
use hounds_ciai.Samples.{workflow, task, store}

parse_minutes : parse_duration "45m" ≡ some (45 * minute)
unfolding parse_duration
parse_minutes = refl

abbrev moved_task : Task
moved_task = record task { current_state = "merging"; pane_id = "pane-1" }

update_task-get_task_example :
    (s' : Store) × (row : Task) × (update_task moved_task store ≡ ok s')
    × (get_task "issue-7" s' ≡ ok row)
    × Overwritten moved_task task row
    × (s'.log ≡ [])
unfolding get_task
update_task-get_task_example = update_task-get_task moved_task task store refl

abbrev alert_row : AuditEntry
alert_row = record {
  task_id = "issue-7";
  ts = 0;
  from_state = "implementing";
  to_state = "implementing";
  trigger = "agent.blocked";
  result = "";
}

abbrev entry_row : AuditEntry
entry_row = record alert_row { from_state = "queued"; trigger = "scheduled" }

abbrev approval : Review
approval = record { login = "ann"; state = "APPROVED"; submitted_at = "2024-01-01" }

abbrev comment : Review
comment = record { login = "ann"; state = "COMMENTED"; submitted_at = "2024-01-02" }

-- An approval after a request for changes, with a comment after it.
abbrev refusal : Review
refusal = record { login = "ann"; state = "CHANGES_REQUESTED"; submitted_at = "2023-12-31" }

latest_reviews-last_example :
    lookup "ann" (latest_reviews [] (refusal ∷ approval ∷ comment ∷ []))
    ≡ some ("APPROVED", "2024-01-01")
unfolding latest_reviews note_review decisive_review
latest_reviews-last_example =
    latest_reviews-last [] (refusal ∷ []) approval (comment ∷ []) (==_false "ann" "" refl)
      (inl refl)
      (λ cur e.
        let same : some ("CHANGES_REQUESTED", "2023-12-31") ≡ some cur = e in newer cur same)
      refl
  where
    newer :
        (cur : String × String)
        → some ("CHANGES_REQUESTED", "2023-12-31") ≡ some cur
        → str_leb cur.1 "2024-01-01" ≡ true
    newer cur e = let same : ("CHANGES_REQUESTED", "2023-12-31") ≡ cur = cc in rw (← same) refl

abbrev a_check : String → Check
a_check conclusion = record { status = "COMPLETED"; conclusion = conclusion; state = "" }

abbrev a_view : PrView
a_view = record {
  state = "OPEN";
  review_decision = "";
  head_ref_oid = "abc";
  mergeable = "MERGEABLE";
  merge_state_status = "CLEAN";
  checks = a_check "SUCCESS" ∷ a_check "FAILURE" ∷ [];
  reviews = approval ∷ [];
}

abbrev state_timeout : Transition
state_timeout = record {
  when = record { event = ""; timeout = "45m"; decision = ""; gate = [] };
  evaluate = none;
  to = "stuck";
  branch = [];
  action = none;
}

short_times : (l : ℕ) → longest_state_timeout (workflow false) ≡ some l → l < doubling_limit
unfolding longest_state_timeout parse_duration is_timeout state_of
short_times l e = let same : some (45 * minute) ≡ some l = e in ground (arith, same)

resolve_drive_deadline_above_example : (hour ≤ 90 * minute) × (2 * (45 * minute) ≤ 90 * minute)
unfolding parse_duration is_timeout resolve_drive_deadline state_of longest_state_timeout
resolve_drive_deadline_above_example =
    resolve_drive_deadline_above (workflow false) "implementing" state_timeout (45 * minute)
      (90 * minute) here (there here) refl refl refl short_times refl

-- Two issues are queued, a worker takes the first, and the poller finds it again.
abbrev busy : Sched
busy = enqueue none (7 ∷ []) (receive (enqueue none (7 ∷ 8 ∷ []) empty))

Reachable-Claimed_example :
    count 7 busy.queue + count 7 busy.running ≡ (if has_key 7 busy.inflight then 1 else 0)
Reachable-Claimed_example =
    Reachable-Claimed
      (goes_on (goes_on (goes_on begins (polls none (7 ∷ 8 ∷ []))) receives) (polls none (7 ∷ [])))
      7

still_one : busy.queue ≡ 8 ∷ []
unfolding enqueue enqueue_one enqueue_ready claim_and_send send_or_release add readiness receive
still_one = refl

-- A subscriber, and a poll that finds its agent done.
abbrev finished_pane : PaneInfo
finished_pane = record {
  pane_id = "pane-1";
  agent_status = "done";
  workspace_id = "w1";
  cwd = "/wt";
}

abbrev heard : Hub
heard = broadcast (finished_pane ∷ []) (subscribe idle_hub)

subscribed : (subscribe idle_hub).polling ≡ true
unfolding subscribe
subscribed = refl

Reachable-Told_example : Told heard.last heard.subs
Reachable-Told_example =
    Reachable-Told
      (Hub_goes_on (Hub_goes_on Hub_begins subscribes) (polled (finished_pane ∷ []) subscribed))

what_it_hears : heard.last ≡ ("pane-1", done) ∷ []
unfolding broadcast publish normalize_state subscribe
what_it_hears = refl
