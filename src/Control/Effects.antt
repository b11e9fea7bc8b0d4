-- ===== src/Control/Effects.antt =====
-- internal/mcp/tools.go: which calls change the scheduler.
use hounds_ciai.Prelude.{
  ℕ, ◌≡◌, ◌≢◌, inl, inr, refl, Option, none, some, ◌==◌, string_eq, nat_eq, Bool-cases, ==_true,
  ==_false,
}
use hounds_ciai.Scheduler.{Sched, Refusal, cancel_issue, enqueue_one}
use hounds_ciai.Control.{
  Handler, CallParams, IssueArg, missing, below, number, ToolReply, commanded, issue_tool,
  with_issue, call_tool,
}

-- The ways in which a call leaves the scheduler.
pub data Effect (h : Handler) (p : CallParams) (s : Sched) : Sched → Type 0 where
  untouched : Effect h p s s
  cancels :
      (n : ℕ)
      → p.issue ≡ number n
      → n ≢ 0
      → p.name ≡ "cancel_task"
      → Effect h p s (cancel_issue n s).1
  enqueues :
      (n : ℕ)
      → p.issue ≡ number n
      → n ≢ 0
      → p.name ≡ "enqueue_task"
      → Effect h p s (enqueue_one h.check n s).1

commanded-state : (done : ToolReply) (r : Option Refusal × Sched) → (commanded done r).1 ≡ r.1
unfolding commanded
commanded-state done (none, s) = refl
commanded-state done (some r, s) = refl

module _ (h : Handler) (p : CallParams) (s : Sched) where
  issue_tool-Effect :
      (n : ℕ) → p.issue ≡ number n → n ≢ 0 → Effect h p s (issue_tool h p.name n s).1
  unfolding issue_tool
  issue_tool-Effect n e ne = elim (Bool-cases (p.name == "get_task")) [
    | inl a ↦ rw a untouched
    | inr a ↦ rw a (elim (Bool-cases (p.name == "get_audit")) [
      | inl b ↦ rw b untouched
      | inr b ↦ rw b (elim (Bool-cases (p.name == "cancel_task")) [
        | inl c ↦ rw c (
            rw (commanded-state _ (cancel_issue n s))
              (cancels n e ne (==_true p.name "cancel_task" c)))
        | inr c ↦ rw c (elim (Bool-cases (p.name == "enqueue_task")) [
          | inl d ↦ rw d (
              rw (commanded-state _ (enqueue_one h.check n s))
                (enqueues n e ne (==_true p.name "enqueue_task" d)))
          | inr d ↦ rw d untouched
        ])
      ])
    ])
  ]

  with_issue-Effect : (i : IssueArg) → p.issue ≡ i → Effect h p s (with_issue h p.name i s).1
  unfolding with_issue
  with_issue-Effect missing e = untouched
  with_issue-Effect (below n) e = untouched
  with_issue-Effect (number n) e = elim (Bool-cases (n == 0)) [
    | inl z ↦ rw z untouched
    | inr z ↦ rw z (issue_tool-Effect n e (==_false n 0 z))
  ]

  -- A call of the control server leaves the scheduler as it is, or it is the scheduler's own cancel, or
  -- its own enqueue, of the issue that the call names by a positive number under that tool's name.
  pub call_tool-Effect : Effect h p s (call_tool h (some p) s).1
  unfolding call_tool
  call_tool-Effect = elim (Bool-cases (p.name == "list_tasks")) [
    | inl a ↦ rw a untouched
    | inr a ↦ rw a (with_issue-Effect p.issue refl)
  ]
