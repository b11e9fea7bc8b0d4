-- ===== src/Config/Validate/Limits.antt =====
-- The limits that an accepted workflow keeps: gated merges, bounded agents, a late drive deadline.
use hounds_ciai.Prelude.{
  ℕ, ◌<◌, ◌≤◌, String, true, false, not, ◌&&◌, ◌≡◌, ◌⊎◌, inl, inr, refl, none, some, [], ◌==◌,
  string_eq, ltb, leb, is_nonempty, In, gather, gather-nil, note, note-nil, Bool-cases,
  Option-cases, ==_true, ltb→lt, arith,
}
use hounds_ciai.Prelude.Maps.{keys, In-has_key}
use hounds_ciai.Config.Types.{
  Transition, Workflow, state_of, sorted_keys, gate_refs, targets, is_timeout,
  has_timeout_transition,
}
use hounds_ciai.Config.Graph.{is_side_effecting}
use hounds_ciai.Config.Durations.{
  parse_duration, resolve_no_progress_timeout, resolve_drive_deadline, longest_state_timeout,
  doubling_limit,
}
use hounds_ciai.Config.Durations.Deadline.{
  longest_state_timeout_above, resolve_drive_deadline_above,
}
use hounds_ciai.Config.Validate.Messages.{ungated, early_deadline, unsafe_tool}
use hounds_ciai.Config.Validate.Edges.{check_merge_gated, check_ungated, in_side}
use hounds_ciai.Config.Validate.Bounds.{
  has_agent, check_bounded, check_agent_states_bounded, above_longest, check_drive_deadline,
  check_tools, role_of, shell_safe_tool_token,
}
use hounds_ciai.Config.Validate.Accepted.{
  Accepted, parts, each_transition-nil, In-sorted_keys, not-note-nil, accepted-targets,
}

ungated-nil :
    (wf : Workflow) (n m : String) (i : ℕ) (t : Transition)
    → check_ungated wf n i t ≡ []
    → In m (targets t)
    → in_side wf m ≡ true
    → is_nonempty (gate_refs t) ≡ true
unfolding check_ungated
ungated-nil wf n m i t h mem side = elim (Bool-cases (is_nonempty (gate_refs t))) [
  | inl e ↦ e
  | inr e ↦
      let clean : gather (λ x. note (in_side wf x) (ungated n i x)) (targets t) ≡ [] = rw e at h in
      let off =
        note-nil (in_side wf m) (ungated n i m)
          (gather-nil (λ x. note (in_side wf x) (ungated n i x)) (targets t) clean mem) in
      cc
]

unresolved :
    (wf : Workflow)
    → resolve_no_progress_timeout wf.policies ≡ none
    → ¬ ((check_agent_states_bounded wf).1 ≡ [])
unfolding check_agent_states_bounded
unresolved wf e = rw (check_agent_states_bounded, e) (λ h. cc)

disabled :
    (wf : Workflow) (b : ℕ)
    → resolve_no_progress_timeout wf.policies ≡ some b
    → ltb 0 b ≡ false
    → (check_agent_states_bounded wf).1 ≡ []
    → gather (check_bounded wf) (sorted_keys wf.states) ≡ []
unfolding check_agent_states_bounded
disabled wf b e l = rw (check_agent_states_bounded, e, l) (λ h. h)

timed :
    (wf : Workflow) (n : String)
    → has_agent (state_of wf n) ≡ true
    → check_bounded wf n ≡ []
    → has_timeout_transition (state_of wf n) ≡ true
unfolding check_bounded
timed wf n runs = rw runs (not-note-nil _ _)

set_deadline :
    (wf : Workflow) (d : ℕ)
    → (wf.policies.drive_deadline == "") ≡ false
    → resolve_drive_deadline wf ≡ some d
    → parse_duration wf.policies.drive_deadline ≡ some d
unfolding resolve_drive_deadline
set_deadline wf d e = rw e (λ h. h)

early-nil : (d l : ℕ) → 0 < l → above_longest d (some l) ≡ [] → (s : ℕ) → s ≤ l → s < d
unfolding above_longest
early-nil d l positive h s le =
    let off = note-nil (ltb 0 l && leb d l) (early_deadline d l) h in ground arith

unlong : (d : ℕ) → ¬ (above_longest d none ≡ [])
unfolding above_longest
unlong d h = cc

deadline_clear :
    (wf : Workflow) (d : ℕ)
    → (wf.policies.drive_deadline == "") ≡ false
    → parse_duration wf.policies.drive_deadline ≡ some d
    → check_drive_deadline wf ≡ []
    → (l : ℕ) × (longest_state_timeout wf ≡ some l) × (above_longest d (some l) ≡ [])
unfolding check_drive_deadline
deadline_clear wf d e p =
    rw (e, p)
      (λ h. elim (Option-cases (longest_state_timeout wf)) [
        | inl q ↦ absurd (unlong d (rw q at h))
        | inr (l, q) ↦ (l, q, rw q at h)
      ])

module _ (wf : Workflow) (accepted : Accepted wf) {n : String}
    (declared : In n (keys wf.states)) where
  -- In an accepted workflow a transition of a declared state into a state whose entry merges, by its
  -- target or by a branch, refers to a gate.
  pub accepted-gated :
      (t : Transition) (m : String)
      → In t (state_of wf n).transitions
      → In m (targets t)
      → is_side_effecting (state_of wf m) ≡ true
      → is_nonempty (gate_refs t) ≡ true
  unfolding check_merge_gated in_side
  accepted-gated t m member aims side =
      let none_of =
        gather-nil (check_merge_gated wf) (sorted_keys wf.states) (parts wf accepted).merges
          (In-sorted_keys wf.states declared) in
      let (i, h) =
        each_transition-nil (check_ungated wf n) 0 (state_of wf n).transitions none_of member in
      let known = In-has_key wf.states (accepted-targets wf accepted declared member m aims) in
      ungated-nil wf n m i t h aims (rw (known, side) refl)

  -- In an accepted workflow the ceiling on a drive is above each timeout that a declared state
  -- declares, if the timeout is not zero: when the ceiling is set, always; when it is derived, if the
  -- longest timeout is under 2^62 ns, so that its double fits an int64.
  pub accepted-deadline :
      (t : Transition) (s d : ℕ)
      → In t (state_of wf n).transitions
      → is_timeout t.when ≡ true
      → parse_duration t.when.timeout ≡ some s
      → 0 < s
      → (wf.policies.drive_deadline ≡ ""
          → (l : ℕ) → longest_state_timeout wf ≡ some l
          → l < doubling_limit)
      → resolve_drive_deadline wf ≡ some d
      → s < d
  accepted-deadline t s d member timed p positive short h =
      elim (Bool-cases (wf.policies.drive_deadline == "")) [
        | inl e ↦
            let above =
              resolve_drive_deadline_above wf n t s d declared member timed p
                (==_true wf.policies.drive_deadline "" e)
                (short (==_true wf.policies.drive_deadline "" e)) h in
            omega arith
        | inr e ↦
            let (l, q, clear) =
              deadline_clear wf d e (set_deadline wf d e h) (parts wf accepted).deadline in
            let below = longest_state_timeout_above wf n t s l declared member timed p q in
            early-nil d l (omega arith) clear s below
      ]

module _ (wf : Workflow) (accepted : Accepted wf) where
  -- In an accepted workflow, whatever its states, the bound on an agent without progress resolves, and
  -- where it is disabled each declared state that runs an agent has a timeout transition.
  pub accepted-bounded :
      (b : ℕ) × (resolve_no_progress_timeout wf.policies ≡ some b)
      × ((0 < b)
          ⊎ ((n : String)
              → In n (keys wf.states)
              → (has_agent (state_of wf n) ≡ false)
                ⊎ (has_timeout_transition (state_of wf n) ≡ true)))
  accepted-bounded = elim (Option-cases (resolve_no_progress_timeout wf.policies)) [
    | inl e ↦ absurd (unresolved wf e (parts wf accepted).agents)
    | inr (b, e) ↦ (
      b,
      e,
      elim (Bool-cases (ltb 0 b)) [
        | inl l ↦ inl (ltb→lt 0 b l)
        | inr l ↦ inr (λ n declared. elim (Bool-cases (has_agent (state_of wf n))) [
          | inr idle ↦ inl idle
          | inl runs ↦ inr (
              timed wf n runs (
                gather-nil (check_bounded wf) (sorted_keys wf.states)
                  (disabled wf b e l (parts wf accepted).agents)
                  (In-sorted_keys wf.states declared)))
        ])
      ],
    )
  ]

  -- In an accepted workflow each tool that a declared role allows is a token that a shell takes as it
  -- is.
  pub accepted-tools :
      (n tok : String)
      → In n (keys wf.roles)
      → In tok (role_of wf n).allowed_tools
      → shell_safe_tool_token tok ≡ true
  unfolding check_tools
  accepted-tools n tok declared member =
      let none_of =
        gather-nil (check_tools wf) (sorted_keys wf.roles) (parts wf accepted).tools
          (In-sorted_keys wf.roles declared) in
      not-note-nil _ _ (
        gather-nil (λ x. note (not (shell_safe_tool_token x)) (unsafe_tool n x))
          (role_of wf n).allowed_tools none_of member)
