-- ===== src/Config/Durations/Deadline.antt =====
-- The derived ceiling on a drive, and the timeouts that a workflow declares.
use hounds_ciai.Prelude.{
  ℕ, ◌*◌, ◌≤◌, ◌<◌, String, true, ◌≡◌, refl, Option, none, some, List, [], ◌∷◌, string_eq, ltb,
  if◌then◌else◌, In, here, there, Bool-cases, Option-cases, inl, inr, arith,
}
use hounds_ciai.Prelude.Maps.{keys}
use hounds_ciai.Prelude.Sorting.{sort_strings-In}
use hounds_ciai.Config.Types.{Transition, Workflow, is_timeout, state_of, sorted_keys}
use hounds_ciai.Config.Durations.{
  hour, min_drive_deadline, parse_duration, longer, longest_of, longest_over, longest_state_timeout,
  derived_deadline, resolve_drive_deadline, doubled, doubling_limit,
}

doubled_exact : (l : ℕ) → l < doubling_limit → doubled l ≡ some (2 * l)
unfolding doubled
doubled_exact l short = ground (arith, short)

longest_of-none : (ts : List Transition) → longest_of ts none ≡ none
unfolding longest_of
longest_of-none [] = refl
longest_of-none (t ∷ ts) = elim (Bool-cases (is_timeout t.when)) [
  | inl e ↦ rw e (longest_of-none ts)
  | inr e ↦ rw e (longest_of-none ts)
]

longest_of_mono : (ts : List Transition) (a l : ℕ) → longest_of ts (some a) ≡ some l → a ≤ l
unfolding longest_of longer
longest_of_mono [] a l = λ h. ground (arith, h)
longest_of_mono (t ∷ ts) a l = elim (Bool-cases (is_timeout t.when)) [
  | inr e ↦ rw e (longest_of_mono ts a l)
  | inl e ↦ rw e (elim (Option-cases (parse_duration t.when.timeout)) [
    | inl p ↦ rw (p, longest_of-none ts) (λ h. cc)
    | inr (d, p) ↦ rw p λ h. ground (arith, longest_of_mono ts (if ltb a d then d else a) l h)
  ])
]

module _ (t : Transition) (n : ℕ) (timed : is_timeout t.when ≡ true)
    (p : parse_duration t.when.timeout ≡ some n) where
  longest_of_above :
      (ts : List Transition) (a l : ℕ) → In t ts → longest_of ts (some a) ≡ some l → n ≤ l
  unfolding longest_of longer
  longest_of_above [] a l m = elim m [ ]
  longest_of_above (_ ∷ ts) a l here =
      rw (timed, p) λ h. ground (arith, longest_of_mono ts (if ltb a n then n else a) l h)
  longest_of_above (u ∷ ts) a l (there m) = elim (Bool-cases (is_timeout u.when)) [
    | inr e ↦ rw e (longest_of_above ts a l m)
    | inl e ↦ rw e (elim (Option-cases (parse_duration u.when.timeout)) [
      | inl q ↦ rw (q, longest_of-none ts) (λ h. cc)
      | inr (d, q) ↦ rw q (longest_of_above ts (if ltb a d then d else a) l m)
    ])
  ]

  module _ (wf : Workflow) where
    longest_over-none : (ns : List String) → longest_over wf ns none ≡ none
    unfolding longest_over
    longest_over-none [] = refl
    longest_over-none (x ∷ ns) =
        rw (longest_of-none (state_of wf x).transitions) (longest_over-none ns)

    longest_over_mono : (ns : List String) (a l : ℕ) → longest_over wf ns (some a) ≡ some l → a ≤ l
    unfolding longest_over
    longest_over_mono [] a l = λ h. ground (arith, h)
    longest_over_mono (x ∷ ns) a l =
        elim (Option-cases (longest_of (state_of wf x).transitions (some a))) [
          | inl q ↦ rw (q, longest_over-none ns) (λ h. cc)
          | inr (d, q) ↦ rw q λ h.
              let up = longest_of_mono (state_of wf x).transitions a d q in
              let on = longest_over_mono ns d l h in omega arith
        ]

    longest_over_above :
        (name : String)
        → In t (state_of wf name).transitions
        → (ns : List String) (a l : ℕ) → In name ns
        → longest_over wf ns (some a) ≡ some l
        → n ≤ l
    unfolding longest_over
    longest_over_above name m [] a l i = elim i [ ]
    longest_over_above name m (_ ∷ ns) a l here =
        elim (Option-cases (longest_of (state_of wf name).transitions (some a))) [
          | inl q ↦ rw (q, longest_over-none ns) (λ h. cc)
          | inr (d, q) ↦ rw q λ h.
              let up = longest_of_above (state_of wf name).transitions a d m q in
              let on = longest_over_mono ns d l h in omega arith
        ]
    longest_over_above name m (x ∷ ns) a l (there i) =
        elim (Option-cases (longest_of (state_of wf x).transitions (some a))) [
          | inl q ↦ rw (q, longest_over-none ns) (λ h. cc)
          | inr (d, q) ↦ rw q (longest_over_above name m ns d l i)
        ]

    derived_above :
        (o : Option ℕ) (d : ℕ)
        → derived_deadline o ≡ some d
        → ((l : ℕ) → o ≡ some l → n ≤ l)
        → ((l : ℕ) → o ≡ some l → l < doubling_limit)
        → (hour ≤ d) × (2 * n ≤ d)
    unfolding derived_deadline
    derived_above none d h k short = cc
    derived_above (some l) d h k short =
        let up = k l refl in
        let is : (if ltb min_drive_deadline (2 * l) then 2 * l else min_drive_deadline) ≡ d =
          ground (arith, doubled_exact l (short l refl), h) in
        (ground (arith, is), ground (arith, is, up))

-- The longest state timeout is no shorter than a timeout that a declared state declares.
pub longest_state_timeout_above :
    (wf : Workflow) (name : String) (t : Transition) (n l : ℕ)
    → In name (keys wf.states)
    → In t (state_of wf name).transitions
    → is_timeout t.when ≡ true
    → parse_duration t.when.timeout ≡ some n
    → longest_state_timeout wf ≡ some l
    → n ≤ l
unfolding longest_state_timeout
longest_state_timeout_above wf name t n l declared m timed p q =
    longest_over_above t n timed p wf name m (sorted_keys wf.states) 0 l
      (sort_strings-In (keys wf.states) declared) q

-- When no deadline is set, and the longest timeout is under 2^62 ns, so that its double fits an
-- int64, the deadline derived for a drive is at least an hour, and at least twice each timeout that a
-- declared state declares: the reaper does not foreclose on a state's own timeout.
pub resolve_drive_deadline_above :
    (wf : Workflow) (name : String) (t : Transition) (n d : ℕ)
    → In name (keys wf.states)
    → In t (state_of wf name).transitions
    → is_timeout t.when ≡ true
    → parse_duration t.when.timeout ≡ some n
    → wf.policies.drive_deadline ≡ ""
    → ((l : ℕ) → longest_state_timeout wf ≡ some l → l < doubling_limit)
    → resolve_drive_deadline wf ≡ some d
    → (hour ≤ d) × (2 * n ≤ d)
unfolding resolve_drive_deadline longest_state_timeout state_of
resolve_drive_deadline_above wf name t n d declared m timed p unset short = rw unset (λ h.
    derived_above t n timed p wf (longest_state_timeout wf) d h
      (λ l q. longest_state_timeout_above wf name t n l declared m timed p q) short)
