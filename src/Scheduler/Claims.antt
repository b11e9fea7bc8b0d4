-- ===== src/Scheduler/Claims.antt =====
-- The in-flight set against the queue and the workers.
use hounds_ciai.Prelude.{
  ℕ, ◌+◌, Bool, true, false, ◌≡◌, refl, ap, subst, Option, none, some, List, [], ◌∷◌, ◌==◌, nat_eq,
  if◌then◌else◌, ltb, length, In, Bool-cases, ◌⊎◌, inl, inr, arith, ==_true,
}
use hounds_ciai.Prelude.Maps.{has_key, insert}
use hounds_ciai.Result.{Result, ok, err}
use hounds_ciai.Scheduler.Counting.{
  count, count-append, has_key-insert, has_key-delete, delete-insert, count-remove_one,
}
use hounds_ciai.Scheduler.{
  Handle, Inflight, Sched, Refusal, DoneCheck, queue_depth, add, arm, readiness, send_or_release,
  claim_and_send, enqueue_ready, enqueue_one, enqueue, poll, seed, tick, cancel_of, cancel_issue,
  receive, start_drive, release, reap,
}
use hounds_ciai.Scheduler.Steps.{
  Step, polls, ticks, enqueues, cancels, receives, starts, releases, reaps, Reachable, begins,
  goes_on,
}

-- Each issue of the queue and of the workers is claimed, once, and each claim has its issue there.
unfoldable pub Claimed : Sched → Type 0
unfolding count
Claimed s = (i : ℕ) → count i s.queue + count i s.running ≡ (if has_key i s.inflight then 1 else 0)

added :
    (issue : ℕ) (m : Inflight)
    → has_key issue m ≡ false
    → add issue m ≡ some (insert issue (record { cancel = none; started = 0 }) m)
unfolding add
added issue m n = rw n refl

claim_refused :
    (issue : ℕ) (s : Sched) (why : Refusal)
    → has_key issue s.inflight ≡ false
    → (claim_and_send issue s).0 ≡ some why
    → (claim_and_send issue s).1 ≡ s
unfolding claim_and_send send_or_release add
claim_refused issue s why n =
    rw (claim_and_send, added issue s.inflight n)
      λ h. elim (Bool-cases (ltb (length s.queue) queue_depth)) [
        | inl b ↦ cc
        | inr b ↦ rw b (
            ap (λ m. record s { inflight = m })
              (delete-insert issue (record { cancel = none; started = 0 }) s.inflight n))
      ]

ready_refused :
    (r : Result Bool) (issue : ℕ) (s : Sched) (why : Refusal)
    → has_key issue s.inflight ≡ false
    → (enqueue_ready r issue s).0 ≡ some why
    → (enqueue_ready r issue s).1 ≡ s
unfolding enqueue_ready
ready_refused (err x) issue s why n h = refl
ready_refused (ok true) issue s why n h = refl
ready_refused (ok false) issue s why n h = claim_refused issue s why n h

-- A refused command changes nothing: a full channel gives back what was claimed.
pub enqueue_one_refused :
    (check : DoneCheck) (issue : ℕ) (s : Sched) (why : Refusal)
    → (enqueue_one check issue s).0 ≡ some why
    → (enqueue_one check issue s).1 ≡ s
unfolding enqueue_one
enqueue_one_refused check issue s why =
    elim (Bool-cases (has_key issue s.inflight))
      as (λ _. (enqueue_one check issue s).0 ≡ some why → (enqueue_one check issue s).1 ≡ s) [
        | inl b ↦ rw b (λ h. refl)
        | inr b ↦ rw b (ready_refused (readiness check issue) issue s why b)
      ]

send-Claimed :
    (issue : ℕ) (h : Handle) (s : Sched)
    → has_key issue s.inflight ≡ false
    → Claimed s
    → Claimed (send_or_release issue (insert issue h s.inflight) s).1
unfolding Claimed send_or_release count
send-Claimed issue h s n c = elim (Bool-cases (ltb (length s.queue) queue_depth)) [
  | inl b ↦ rw b λ i.
      rw (count-append i s.queue (issue ∷ []), has_key-insert i issue h s.inflight)
        (sent i (Bool-cases (issue == i)))
  | inr b ↦ rw (b, delete-insert issue h s.inflight n) c
]
  where
    sent :
        (i : ℕ)
        → (issue == i ≡ true) ⊎ (issue == i ≡ false)
        → count i s.queue + count i (issue ∷ []) + count i s.running
          ≡ (if (if issue == i then true else has_key i s.inflight) then 1 else 0)
    sent i (inl e) =
        let n' : has_key i s.inflight ≡ false =
          subst (λ k. has_key k s.inflight ≡ false) (==_true issue i e) n in
        ground (arith, e, n', c i)
    sent i (inr e) = ground (arith, e, c i)

claim-Claimed :
    (issue : ℕ) (s : Sched)
    → has_key issue s.inflight ≡ false
    → Claimed s
    → Claimed (claim_and_send issue s).1
unfolding claim_and_send
claim-Claimed issue s n c =
    rw (claim_and_send, added issue s.inflight n)
      (send-Claimed issue (record { cancel = none; started = 0 }) s n c)

ready-Claimed :
    (r : Result Bool) (issue : ℕ) (s : Sched)
    → has_key issue s.inflight ≡ false
    → Claimed s
    → Claimed (enqueue_ready r issue s).1
unfolding enqueue_ready
ready-Claimed (err x) issue s n c = c
ready-Claimed (ok true) issue s n c = c
ready-Claimed (ok false) issue s n c = claim-Claimed issue s n c

enqueue_one-Claimed :
    (check : DoneCheck) (issue : ℕ) (s : Sched) → Claimed s → Claimed (enqueue_one check issue s).1
unfolding enqueue_one
enqueue_one-Claimed check issue s c =
    elim (Bool-cases (has_key issue s.inflight)) as (λ _. Claimed (enqueue_one check issue s).1) [
      | inl b ↦ rw b c
      | inr b ↦ rw b (ready-Claimed (readiness check issue) issue s b c)
    ]

enqueue-Claimed :
    (check : DoneCheck) (issues : List ℕ) (s : Sched) → Claimed s → Claimed (enqueue check issues s)
unfolding enqueue
enqueue-Claimed check [] s c = c
enqueue-Claimed check (issue ∷ issues) s c =
    enqueue-Claimed check issues (enqueue_one check issue s).1 (enqueue_one-Claimed check issue s c)

cancel_issue-Claimed : (issue : ℕ) (s : Sched) → Claimed s → Claimed (cancel_issue issue s).1
unfolding Claimed cancel_issue
cancel_issue-Claimed issue s c = go (cancel_of issue s.inflight) refl
  where
    go : (o : Option ℕ) → cancel_of issue s.inflight ≡ o → Claimed (cancel_issue issue s).1
    go none h = rw (cancel_issue, h) c
    go (some context) h = rw (cancel_issue, h) c

receive-Claimed : (s : Sched) → Claimed s → Claimed (receive s)
unfolding Claimed receive count
receive-Claimed s c = go s.queue refl
  where
    go : (q : List ℕ) → s.queue ≡ q → Claimed (receive s)
    go [] h = rw (receive, h) c
    go (issue ∷ rest) h = rw (receive, h) λ i. ground (arith, ap (count i) h, c i)

start_drive-Claimed : (issue now : ℕ) (s : Sched) → Claimed s → Claimed (start_drive issue now s)
unfolding Claimed start_drive arm
start_drive-Claimed issue now s c = elim (Bool-cases (has_key issue s.inflight)) [
  | inl b ↦ rw b λ i.
      rw
        (has_key-insert i issue (record { cancel = some s.next_context; started = now }) s.inflight)
        (kept b i (Bool-cases (issue == i)))
  | inr b ↦ rw b c
]
  where
    kept :
        has_key issue s.inflight ≡ true
        → (i : ℕ) → (issue == i ≡ true) ⊎ (issue == i ≡ false)
        → count i s.queue + count i s.running
          ≡ (if (if issue == i then true else has_key i s.inflight) then 1 else 0)
    kept b i (inl e) =
        let b' : has_key i s.inflight ≡ true =
          subst (λ k. has_key k s.inflight ≡ true) (==_true issue i e) b in
        ground (arith, e, b', c i)
    kept b i (inr e) = ground (arith, e, c i)

release-Claimed :
    (issue : ℕ) (s : Sched) → In issue s.running → Claimed s → Claimed (release issue s)
unfolding Claimed release
release-Claimed issue s m c = λ i.
    rw (has_key-delete i issue s.inflight)
      (ground (arith, count-remove_one i issue s.running m, c i))

poll-Claimed :
    (check : DoneCheck) (listed : Result (List ℕ)) (s : Sched)
    → Claimed s
    → Claimed (poll check listed s)
unfolding poll
poll-Claimed check (err e) s c = c
poll-Claimed check (ok issues) s c = enqueue-Claimed check issues s c

seed-Claimed :
    (check : DoneCheck) (seeds : Option (Result (List ℕ))) (s : Sched)
    → Claimed s
    → Claimed (seed check seeds s)
unfolding seed
seed-Claimed check none s c = c
seed-Claimed check (some (err e)) s c = c
seed-Claimed check (some (ok issues)) s c = enqueue-Claimed check issues s c

Step-Claimed : {s t : Sched} → Step s t → Claimed s → Claimed t
unfolding Claimed reap tick
Step-Claimed {s} (polls check issues) c = enqueue-Claimed check issues s c
Step-Claimed {s} (ticks check listed seeds) c =
    seed-Claimed check seeds (poll check listed s) (poll-Claimed check listed s c)
Step-Claimed {s} (enqueues check issue) c = enqueue_one-Claimed check issue s c
Step-Claimed {s} (cancels issue) c = cancel_issue-Claimed issue s c
Step-Claimed {s} receives c = receive-Claimed s c
Step-Claimed {s} (starts issue now m) c = start_drive-Claimed issue now s c
Step-Claimed {s} (releases issue m) c = release-Claimed issue s m c
Step-Claimed (reaps deadline now) c = c

-- In every interleaving of the poller, the commands, the workers and the reaper, each issue that waits
-- in the queue or that a worker has is claimed, and is there exactly once; an issue that is not
-- claimed is nowhere.
pub Reachable-Claimed :
    {s : Sched}
    → Reachable s
    → (i : ℕ) → count i s.queue + count i s.running ≡ (if has_key i s.inflight then 1 else 0)
unfolding Claimed
Reachable-Claimed begins = λ i. refl
Reachable-Claimed (goes_on r x) = Step-Claimed x (Reachable-Claimed r)
