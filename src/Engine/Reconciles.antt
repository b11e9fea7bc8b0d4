-- ===== src/Engine/Reconciles.antt =====
-- The reconcile against the abstract steps of Engine/Steps.
use hounds_ciai.Prelude.{
  ℕ, String, true, ◌≡◌, refl, sym, ◌∙◌, ap, subst, Option, none, some, ◌==◌, string_eq, In,
  Option-cases, ==_self, ==_true, inl, inr,
}
use hounds_ciai.Prelude.Maps.{lookup, lookup_or}
use hounds_ciai.Store.{Task}
use hounds_ciai.Engine.Steps.{Same}
use hounds_ciai.Engine.Runs.{Runs-pure, Runs-raise, Runs-call}
use hounds_ciai.Config.Types.{State, Transition, state_of}
use hounds_ciai.Engine.Monad.{World, Engine, Sys, attached, find_pr, resolve}
use hounds_ciai.Engine.Steps.{Reach}
use hounds_ciai.Engine.Lookup.{find_event_transition, done_branch_target}
use hounds_ciai.Engine.Merging.{Outcome}
use hounds_ciai.Engine.Resuming.{pane_of, advance_to_done, with_pr, reconcile_pr, reconcile}
use hounds_ciai.Engine.Paths.{Goes, Goes-Runs, Goes-Same, Goes-if, Goes-after, Goes-read}
use hounds_ciai.Engine.Quietly.Writes.{Runs-persist}
use hounds_ciai.Engine.Quietly.Spawning.{Runs-adjust, given}
use hounds_ciai.Engine.Quietly.Leads.{Leads, find_event-In, Leads-branch}
use hounds_ciai.Engine.Advances.{Goes-advance}
use hounds_ciai.Engine.Refines.{AlongEdges}

module _ {W : Type 0} (ext : World W) (e : Engine) where
  done_edge :
      (from verdict : String) (st : State)
      → state_of e.wf from ≡ st
      → (t : Option Transition) → find_event_transition st "agent.done" ≡ t
      → Leads e.wf from (record {
        next = elim t [ none ↦ "" | some t ↦ lookup_or verdict "" t.branch ];
        trigger = "reconcile";
        result = verdict;
      })
  done_edge from verdict st h none f = inl refl
  done_edge from verdict st h (some t) f =
      Leads-branch e.wf from t verdict "reconcile" verdict
        (subst (λ st. In t st.transitions) (sym h) (find_event-In st "agent.done" t f))

  done_branch_target-Leads :
      (from verdict : String)
      → Leads e.wf from (record {
        next = done_branch_target e.wf from verdict;
        trigger = "reconcile";
        result = verdict;
      })
  unfolding done_branch_target state_of
  done_branch_target-Leads from verdict = elim (Option-cases (lookup from e.wf.states)) [
    | inl h ↦ rw (done_branch_target, h) (inl refl)
    | inr (st, h) ↦
        rw (done_branch_target, h) (done_edge from verdict st (rw (state_of, h) refl) _ refl)
  ]

  advance_to_done-Goes :
      (o : Task) (out : Outcome)
      → Leads e.wf o.current_state out
      → Goes {W = W} e (Same o) (λ _. Unit {0}) (advance_to_done ext e out.next)
  unfolding advance_to_done
  advance_to_done-Goes o out (inl h) =
      Goes-if e _ _ _ (λ _. Goes-Runs e _ (Runs-raise e _))
        λ n. let p : (out.next == "") ≡ true = ap (λ s. s == "") h ∙ ==_self {A = String} "" in cc
  advance_to_done-Goes o out (inr m) =
      Goes-if e _ _ _ (λ _. Goes-Runs e _ (Runs-raise e _))
        λ _. Goes-advance ext e attached out.next "reconcile" "pass" o m

  with_pr-Goes :
      (o : Task) (n : Option ℕ)
      → o.current_state ≡ "implementing"
      → Goes {W = W} e (Same o) (λ _. Unit {0}) (with_pr ext e n)
  unfolding with_pr
  with_pr-Goes o none at = Goes-Runs e _ (Runs-persist ext e o attached)
  with_pr-Goes o (some n) at = Goes-read e _ λ task h.
      Goes-after e _ _
        (Runs-adjust ext e o (record task { pr_number = some n })
          (record {
            id = h.id;
            issue = h.issue;
            branch = h.branch;
            snapshot = h.snapshot;
            state = h.state;
          }))
        λ _ _.
          let out : Outcome = record {
            next = done_branch_target e.wf "implementing" "pass";
            trigger = "reconcile";
            result = "pass";
          } in
          advance_to_done-Goes o out (
            subst (λ f. Leads e.wf f out) (sym at) (done_branch_target-Leads "implementing" "pass"))

  reconcile_pr-Goes : (o : Task) → Goes {W = W} e (Same o) (λ _. Unit {0}) (reconcile_pr ext e)
  unfolding reconcile_pr
  reconcile_pr-Goes o = Goes-read e _ λ task h.
      Goes-if e _ _ _
        (λ is.
          Goes-after e {P = λ _. Unit {0}} _ _ (Runs-call e ext (find_pr task.branch) (λ _ _. tt))
            λ r _.
              Goes-after e {P = λ _. Unit {0}} _ _ (given ext e o r)
                λ n _. with_pr-Goes o n (sym h.state ∙ ==_true _ _ is))
        (λ _. Goes-Runs e _ (Runs-persist ext e o attached))

  reconcile-AlongEdges : AlongEdges ext e (reconcile ext e)
  unfolding reconcile
  reconcile-AlongEdges = Goes-Same e _ λ o _. Goes-read e _ λ task h.
      Goes-if e _ _ _ (λ _. Goes-Runs e _ (Runs-pure e _ tt))
        λ _.
          Goes-after e {P = λ _. Unit {0}} _ _ (Runs-call e ext (resolve task.id) (λ _ _. tt))
            λ r _. Goes-after e {P = λ _. Unit {0}} _ _ (given ext e o r) λ p _.
              Goes-after e _ _
                (Runs-adjust ext e o (record task { pane_id = pane_of ext p })
                  (record {
                    id = h.id;
                    issue = h.issue;
                    branch = h.branch;
                    snapshot = h.snapshot;
                    state = h.state;
                  }))
                λ _ _. reconcile_pr-Goes o

  -- The reconcile that precedes a resumed drive takes the task along declared edges only.
  pub reconcile-Reach : (s : Sys W) → Reach e s (reconcile ext e s).1
  reconcile-Reach s = (reconcile-AlongEdges.at s tt).path
