-- ===== src/Scheduler.antt =====
-- internal/scheduler: the queue, the in-flight set and the commands of Serve. Each entry of the poller,
-- a worker or the reaper into the in-flight set is one step, as its mutex makes it; the steps of the
-- goroutines interleave in any order. Contexts are numbers, and a done context keeps its first cause.
-- Tickers, logs and the reply channels are not modelled; Reaping has the cadence of the reaper.
pub mod Counting
pub mod Steps
pub mod Claims
pub mod Reaping
use hounds_ciai.Prelude.{
  ℕ, ◌+◌, Bool, true, false, not, ◌&&◌, ◌≡◌, Option, none, some, List, [], ◌∷◌, ◌++◌, ◌==◌, nat_eq,
  if◌then◌else◌, ltb, leb, length,
}
use hounds_ciai.Prelude.Maps.{lookup, has_key, insert, delete}
use hounds_ciai.Result.{Result, ok, err}

-- `driveHandle`: the context that its cancel function ends, and the start, 0 for the zero time.
pub record Handle : Type 0 where
  pub cancel : Option ℕ
  pub started : ℕ

abbrev pub Inflight : Type 0
Inflight = List (ℕ × Handle)

pub data Reason : Type 0 where
  cancel_command deadline_passed released : Reason

-- Why a command is refused.
pub data Refusal : Type 0 where
  not_running readiness_failed already_settled queue_full : Refusal

-- The buffered channel `work`, the issues that workers have received and not yet released, the set of
-- claims, the done contexts, and the next context.
pub record Sched : Type 0 where
  pub queue : List ℕ
  pub running : List ℕ
  pub inflight : Inflight
  pub cancelled : List (ℕ × Reason)
  pub next_context : ℕ

abbrev pub queue_depth : ℕ
queue_depth = 128

-- `inflightSet.add`: none when the issue is claimed already.
unfoldable pub add : ℕ → Inflight → Option Inflight
add issue m =
    if has_key issue m then none else some (insert issue (record { cancel = none; started = 0 }) m)

-- `inflightSet.arm`: a claim that is gone stays gone.
unfoldable pub arm : ℕ → ℕ → ℕ → Inflight → Inflight
arm issue context now m =
    if has_key issue m then insert issue (record { cancel = some context; started = now }) m else m

-- A call of a cancel function: the first cause stands.
unfoldable pub end_context : ℕ → Reason → List (ℕ × Reason) → List (ℕ × Reason)
end_context context why ended = if has_key context ended then ended else (context, why) ∷ ended

unfoldable pub end_claim : Option ℕ → Reason → List (ℕ × Reason) → List (ℕ × Reason)
unfolding end_context
end_claim none why ended = ended
end_claim (some context) why ended = end_context context why ended

-- `inflightSet.cancel`: the context to end, when the issue has one.
unfoldable pub cancel_of : ℕ → Inflight → Option ℕ
cancel_of issue m = elim (lookup issue m) [ none ↦ none | some h ↦ h.cancel ]

-- `inflightSet.reap`: the contexts past the deadline are ended; the claims stay.
unfoldable pub overdue : ℕ → ℕ → Handle → Option ℕ
overdue deadline now h =
    if not (h.started == 0) && leb (h.started + deadline) now then h.cancel else none

unfoldable pub reap_all : ℕ → ℕ → Inflight → List (ℕ × Reason) → List (ℕ × Reason)
unfolding overdue end_claim
reap_all deadline now [] ended = ended
reap_all deadline now ((issue, h) ∷ m) ended =
    reap_all deadline now m (end_claim (overdue deadline now h) deadline_passed ended)

-- The readiness check `Done`, with what it answers of each issue: absent, failed, or whether the
-- issue's task has settled.
abbrev pub DoneCheck : Type 0
DoneCheck = Option (ℕ → Result Bool)

unfoldable pub readiness : DoneCheck → ℕ → Result Bool
readiness none issue = ok false
readiness (some f) issue = f issue

-- The send with a default: a full channel gives the claim back.
unfoldable pub send_or_release : ℕ → Inflight → Sched → Option Refusal × Sched
send_or_release issue m s =
    if ltb (length s.queue) queue_depth
    then (none, record s { queue = s.queue ++ (issue ∷ []); inflight = m })
    else (some queue_full, record s { inflight = delete issue m })

unfoldable pub claim_and_send : ℕ → Sched → Option Refusal × Sched
unfolding add send_or_release
claim_and_send issue s = elim (add issue s.inflight) [
  | none ↦ (none, s)
  | some m ↦ send_or_release issue m s
]

-- `enqueueOne`: the refusal that it replies with, if any.
unfoldable pub enqueue_ready : Result Bool → ℕ → Sched → Option Refusal × Sched
unfolding claim_and_send
enqueue_ready (err x) issue s = (some readiness_failed, s)
enqueue_ready (ok true) issue s = (some already_settled, s)
enqueue_ready (ok false) issue s = claim_and_send issue s

unfoldable pub enqueue_one : DoneCheck → ℕ → Sched → Option Refusal × Sched
unfolding enqueue_ready readiness
enqueue_one check issue s =
    if has_key issue s.inflight then (none, s) else enqueue_ready (readiness check issue) issue s

-- `enqueue`: the same for each discovered issue, where a refusal is only passed over.
unfoldable pub enqueue : DoneCheck → List ℕ → Sched → Sched
unfolding enqueue_one
enqueue check [] s = s
enqueue check (issue ∷ issues) s = enqueue check issues (enqueue_one check issue s).1

-- `seed`: `SeedFrom` may be left out, and may fail.
unfoldable pub seed : DoneCheck → Option (Result (List ℕ)) → Sched → Sched
unfolding enqueue
seed check none s = s
seed check (some (err e)) s = s
seed check (some (ok issues)) s = enqueue check issues s

-- A tick of Serve: the poll, which may fail, and the seed in any case.
unfoldable pub poll : DoneCheck → Result (List ℕ) → Sched → Sched
unfolding enqueue
poll check (err e) s = s
poll check (ok issues) s = enqueue check issues s

unfoldable pub tick : DoneCheck → Result (List ℕ) → Option (Result (List ℕ)) → Sched → Sched
unfolding poll seed
tick check listed seeds s = seed check seeds (poll check listed s)

-- The cancel command of `handleCommand`.
unfoldable pub cancel_issue : ℕ → Sched → Option Refusal × Sched
unfolding cancel_of end_context
cancel_issue issue s = elim (cancel_of issue s.inflight) [
  | none ↦ (some not_running, s)
  | some context ↦ (none, record s { cancelled = end_context context cancel_command s.cancelled })
]

-- A worker's receive, its arming of the claim, and its release after the drive.
unfoldable pub receive : Sched → Sched
receive s = elim s.queue [
  | [] ↦ s
  | issue ∷ rest ↦ record s { queue = rest; running = issue ∷ s.running }
]

unfoldable pub start_drive : ℕ → ℕ → Sched → Sched
unfolding arm
start_drive issue now s = record s {
  inflight = arm issue s.next_context now s.inflight;
  next_context = s.next_context + 1;
}

unfoldable pub remove_one : ℕ → List ℕ → List ℕ
remove_one issue [] = []
remove_one issue (x ∷ xs) = if x == issue then xs else x ∷ remove_one issue xs

unfoldable pub release : ℕ → Sched → Sched
unfolding remove_one end_claim
release issue s = record s {
  running = remove_one issue s.running;
  inflight = delete issue s.inflight;
  cancelled = end_claim (cancel_of issue s.inflight) released s.cancelled;
}

unfoldable pub reap : ℕ → ℕ → Sched → Sched
unfolding reap_all
reap deadline now s = record s { cancelled = reap_all deadline now s.inflight s.cancelled }
