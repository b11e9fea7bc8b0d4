-- ===== src/Witnesses/Upkeep.antt =====
-- The reaper of the scheduler, and the migrations of the store, at concrete data.
use hounds_ciai.Prelude.{
  String, ℕ, ◌+◌, ◌*◌, ◌≤◌, ◌<◌, Bool, true, ◌≡◌, ◌⊎◌, refl, some, [], ◌∷◌, string_eq, nat_eq,
  arith,
}
use hounds_ciai.Prelude.Maps.{has_key}
use hounds_ciai.Config.Durations.{hour}
use hounds_ciai.Scheduler.{Handle, Sched, reap}
use hounds_ciai.Scheduler.Reaping.{one_second, max_reap_interval, sweep_interval, reaped_in_time}
use hounds_ciai.Store.Migrations.{
  Table, open_db, add_column, apply_migrations, create_table, Opened, open_db-Opened,
}

abbrev stuck_drive : Handle
stuck_drive = record { cancel = some 4; started = 110 * one_second }

abbrev with_stuck : Sched
with_stuck = record {
  queue = [];
  running = 7 ∷ [];
  inflight = (7, stuck_drive) ∷ [];
  cancelled = [];
  next_context = 5;
}

-- A ceiling of a minute is swept for every six seconds, and one of two hours every thirty.
sweep_of_a_minute : sweep_interval (60 * one_second) 0 ≡ some (6 * one_second)
unfolding sweep_interval
sweep_of_a_minute = refl

sweep_of_hours : sweep_interval (2 * hour) 0 ≡ some (30 * one_second)
unfolding sweep_interval
sweep_of_hours = refl

reaped_in_time_example :
    ((6 * one_second ≡ 0) ⊎ ((one_second ≤ 6 * one_second) × (6 * one_second ≤ max_reap_interval)))
    × ((k : ℕ) × (170 * one_second ≤ 100 * one_second + k * (6 * one_second))
        × (100 * one_second + k * (6 * one_second) < 176 * one_second)
        × (has_key 4
              (reap
                (60 * one_second)
                (100 * one_second + k * (6 * one_second))
                with_stuck).cancelled
            ≡ true))
reaped_in_time_example =
    reaped_in_time (60 * one_second) 0 (6 * one_second) (100 * one_second) 4 7 stuck_drive
      sweep_of_a_minute refl (omega arith) (omega arith) with_stuck refl

-- A table from before the agents' status was kept.
abbrev early_table : Table
early_table = record {
  columns = "id" ∷ "issue" ∷ "pane_spawn_state" ∷ [];
  rows =
      (("id", "issue-7") ∷ ("issue", "7") ∷ ("pane_spawn_state", "coding") ∷ [])
      ∷ (("id", "issue-8") ∷ ("issue", "8") ∷ ("pane_spawn_state", "") ∷ [])
      ∷ [];
}

abbrev each_works : String → Bool
each_works c = true

open_db-Opened_example : Opened each_works true early_table
open_db-Opened_example = open_db-Opened each_works true early_table

with_columns :
    (open_db each_works true (some early_table)).1
    ≡ some (record {
      columns =
          "id" ∷ "issue" ∷ "pane_spawn_state" ∷ "workflow_snapshot" ∷ "state_entry_head"
          ∷ "agent_status" ∷ "agent_status_at" ∷ "state_entered_at" ∷ [];
      rows =
          (("id", "issue-7")
            ∷ ("issue", "7")
            ∷ ("pane_spawn_state", "coding")
            ∷ ("workflow_snapshot", "")
            ∷ ("state_entry_head", "")
            ∷ ("agent_status", "")
            ∷ ("agent_status_at", "")
            ∷ ("state_entered_at", "")
            ∷ [])
          ∷ (("id", "issue-8")
              ∷ ("issue", "8")
              ∷ ("pane_spawn_state", "")
              ∷ ("workflow_snapshot", "")
              ∷ ("state_entry_head", "")
              ∷ ("agent_status", "")
              ∷ ("agent_status_at", "")
              ∷ ("state_entered_at", "")
              ∷ [])
          ∷ [];
    })
unfolding open_db add_column apply_migrations create_table
with_columns = refl
