-- ===== src/Scheduler/Reaping.antt =====
-- internal/scheduler/scheduler.go: the cadence of the reaper, and what its sweeps reach. The ticker is
-- taken to tick on time. Times are nanoseconds.
use hounds_ciai.Prelude.{
  ℕ, ◌+◌, ◌-◌, ◌*◌, ◌/◌, ◌≤◌, ◌<◌, true, ◌≡◌, ◌≢◌, ◌⊎◌, inl, inr, refl, Option, none, some, List,
  [], ◌∷◌, ◌==◌, nat_eq, if◌then◌else◌, ltb, arith, Bool-cases, ==_ne, ==_self, le→leb,
}
use native.Mathlib.Nat.{div-add-mod, mod-lt}
use hounds_ciai.Prelude.Maps.{lookup, has_key}
use hounds_ciai.Scheduler.{
  Handle, Inflight, Reason, deadline_passed, Sched, end_context, end_claim, overdue, reap_all, reap,
}

abbrev pub one_second : ℕ
one_second = 1000000000

abbrev pub max_reap_interval : ℕ
max_reap_interval = 30 * one_second

abbrev pub clamped : ℕ → ℕ
clamped i =
    if ltb max_reap_interval i
    then max_reap_interval
    else if ltb i one_second
    then one_second
    else i

-- `startReaper`: none where no ceiling is set, which starts no reaper; an interval that is given is
-- taken, and one that is not is a tenth of the ceiling, within a second and thirty.
unfoldable pub sweep_interval : (deadline given : ℕ) → Option ℕ
sweep_interval deadline given =
    if deadline == 0
    then none
    else if ltb 0 given
    then some given
    else some (clamped (deadline / 10))

-- A context that is done stays done.
end_context-keeps :
    (c d : ℕ) (why : Reason) (ended : List (ℕ × Reason))
    → has_key c ended ≡ true
    → has_key c (end_context d why ended) ≡ true
unfolding end_context
end_context-keeps c d why ended h = ground (arith, h)

end_claim-keeps :
    (c : ℕ) (o : Option ℕ) (why : Reason) (ended : List (ℕ × Reason))
    → has_key c ended ≡ true
    → has_key c (end_claim o why ended) ≡ true
unfolding end_claim
end_claim-keeps c none why ended h = h
end_claim-keeps c (some d) why ended h = end_context-keeps c d why ended h

end_context_self :
    (c : ℕ) (why : Reason) (ended : List (ℕ × Reason)) → has_key c (end_context c why ended) ≡ true
unfolding end_context
end_context_self c why ended = elim (Bool-cases (has_key c ended)) [
  | inl e ↦ rw e e
  | inr e ↦ rw e (rw (==_self c) refl)
]

reap_all-keeps :
    (deadline now c : ℕ) (m : Inflight) (ended : List (ℕ × Reason))
    → has_key c ended ≡ true
    → has_key c (reap_all deadline now m ended) ≡ true
unfolding reap_all
reap_all-keeps deadline now c [] ended h = h
reap_all-keeps deadline now c ((issue, x) ∷ m) ended h =
    reap_all-keeps deadline now c m _
      (end_claim-keeps c (overdue deadline now x) deadline_passed ended h)

-- An armed drive past the ceiling.
pub record Late (deadline now context issue : ℕ) (m : Inflight) : Type 0 where
  pub claim : Handle
  pub claimed : lookup issue m ≡ some claim
  pub armed : claim.cancel ≡ some context
  pub begun : claim.started ≢ 0
  pub late : claim.started + deadline ≤ now

overdue_late :
    (deadline now context : ℕ) (x : Handle)
    → x.cancel ≡ some context
    → x.started ≢ 0
    → x.started + deadline ≤ now
    → overdue deadline now x ≡ some context
unfolding overdue
overdue_late deadline now context x a b l =
    rw (==_ne x.started 0 b, le→leb (x.started + deadline) now l) a

reap_all-ends :
    (deadline now context issue : ℕ) (m : Inflight) (ended : List (ℕ × Reason))
    → Late deadline now context issue m
    → has_key context (reap_all deadline now m ended) ≡ true
unfolding reap_all end_claim
reap_all-ends deadline now context issue [] ended l = let e = l.claimed in cc
reap_all-ends deadline now context issue ((j, x) ∷ m) ended l = elim (Bool-cases (j == issue)) [
  | inl e ↦
      let same : x ≡ l.claim = ground (arith, l.claimed, e) in
      let due : overdue deadline now x ≡ some context =
        rw same (overdue_late deadline now context l.claim l.armed l.begun l.late) in
      rw due
        (reap_all-keeps deadline now context m _ (end_context_self context deadline_passed ended))
  | inr e ↦ reap_all-ends deadline now context issue m _ (record {
    claim = l.claim;
    claimed = ground (arith, l.claimed, e);
    armed = l.armed;
    begun = l.begun;
    late = l.late;
  })
]

-- The intervals that the reaper may have.
sweep_interval_pos :
    (deadline given i : ℕ)
    → sweep_interval deadline given ≡ some i
    → (0 < i) × ((i ≡ given) ⊎ ((one_second ≤ i) × (i ≤ max_reap_interval)))
unfolding sweep_interval
sweep_interval_pos deadline given i h = ground (arith, h)

-- The first multiple of `i` from `x` on.
multiple : (x i : ℕ) → 0 < i → (x ≤ (x + i - 1) / i * i) × ((x + i - 1) / i * i < x + i)
multiple x i p =
    let y = x + i - 1 in
    let e = div-add-mod y i in let l = mod-lt y p in (omega (arith, e, l), omega (arith, e, l))

-- With the reaper on, and its sweeps an interval apart from some time before a drive starts, there is a
-- sweep at the drive's ceiling or less than an interval after it, which ends the drive's context if the
-- drive still holds its claim. The interval is the one that is given, or lies within a second and
-- thirty.
pub reaped_in_time :
    (deadline given i base context issue : ℕ) (h : Handle)
    → sweep_interval deadline given ≡ some i
    → h.cancel ≡ some context
    → h.started ≢ 0
    → base ≤ h.started
    → (s : Sched) → lookup issue s.inflight ≡ some h
    → ((i ≡ given) ⊎ ((one_second ≤ i) × (i ≤ max_reap_interval)))
      × ((k : ℕ) × (h.started + deadline ≤ base + k * i)
          × (base + k * i < h.started + deadline + i)
          × (has_key context (reap deadline (base + k * i) s).cancelled ≡ true))
unfolding reap
reaped_in_time deadline given i base context issue h on armed begun before s claimed =
    let x = h.started + deadline - base in
    let k = (x + i - 1) / i in
    let (positive, range) = sweep_interval_pos deadline given i on in
    let (low, high) = multiple x i positive in
    let late : h.started + deadline ≤ base + k * i = omega arith in
    (
      range,
      (
        k,
        late,
        omega arith,
        reap_all-ends deadline (base + k * i) context issue s.inflight s.cancelled
            (record { claim = h; claimed = claimed; armed = armed; begun = begun; late = late }),
      ),
    )
