-- ===== src/Scheduler/Steps.antt =====
-- internal/scheduler/scheduler.go: what the goroutines of Serve do, as steps in any order.
use hounds_ciai.Prelude.{ℕ, Option, List, [], nat_eq, In}
use hounds_ciai.Result.{Result}
use hounds_ciai.Scheduler.{
  Sched, DoneCheck, enqueue_one, enqueue, tick, cancel_issue, receive, start_drive, release, reap,
}

-- The steps of the poller, the workers and the reaper.
pub data Step (s : Sched) : Sched → Type 0 where
  polls : (check : DoneCheck) (issues : List ℕ) → Step s (enqueue check issues s)
  ticks :
      (check : DoneCheck) (listed : Result (List ℕ)) (seeds : Option (Result (List ℕ)))
      → Step s (tick check listed seeds s)
  enqueues : (check : DoneCheck) (issue : ℕ) → Step s (enqueue_one check issue s).1
  cancels : (issue : ℕ) → Step s (cancel_issue issue s).1
  receives : Step s (receive s)
  starts : (issue now : ℕ) → In issue s.running → Step s (start_drive issue now s)
  releases : (issue : ℕ) → In issue s.running → Step s (release issue s)
  reaps : (deadline now : ℕ) → Step s (reap deadline now s)

abbrev pub empty : Sched
empty = record { queue = []; running = []; inflight = []; cancelled = []; next_context = 0 }

-- What can happen from an empty scheduler, in any order of the goroutines.
pub data Reachable : Sched → Type 0 where
  begins : Reachable empty
  goes_on : {s t : Sched} → Reachable s → Step s t → Reachable t
