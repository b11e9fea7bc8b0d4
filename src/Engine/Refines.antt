-- ===== src/Engine/Refines.antt =====
-- The drive against the abstract steps of Engine/Steps.
use hounds_ciai.Prelude.{
  ℕ, zero, suc, String, Bool, true, false, ◌≡◌, refl, sym, ◌∙◌, ap, Option, none, some, ◌==◌,
  string_eq, ==_self, inl, inr,
}
use hounds_ciai.Result.{Err, Result, ok, err}
use hounds_ciai.Store.{Task}
use hounds_ciai.Engine.Steps.{Same, Edge, escalates, cancels}
use hounds_ciai.Engine.Runs.{
  Post, Runs-pure, Runs-raise, Runs-if, Runs-caught, Runs-get_cause, Runs-read, Runs-next, Runs-ask,
}
use hounds_ciai.Result.{suspended}
use hounds_ciai.Engine.Monad.{
  World, Engine, Sys, M, attached, detached, Cause, operator_cancel, drive_deadline, shutdown,
  cleanup,
}
use hounds_ciai.Engine.Steps.{Reach}
use hounds_ciai.Engine.Lookup.{cancel_state, escalation_target}
use hounds_ciai.Engine.Merging.{Outcome}
use hounds_ciai.Engine.Driving.{
  maybe_cleanup, halt, apply_outcome, round_result, drive_round, drive_loop, settle_cancelled,
  settle_deadline, by_cause, reclassify_cancel, drive,
}
use hounds_ciai.Engine.Paths.{
  Goes, Goes-Runs, Goes-Same, Goes-if, Goes-caught, Goes-after, Goes-bind, Goes-read,
}
use hounds_ciai.Engine.Quietly.Writes.{Runs-notify_terminal_alert, Runs-note}
use hounds_ciai.Engine.Quietly.Waiting.{LeadsOn}
use hounds_ciai.Engine.Quietly.States.{Runs-run_state}
use hounds_ciai.Engine.Advances.{Still, Goes-advance}

module _ {W : Type 0} (ext : World W) (e : Engine) where
  halt_quiet : (o : Task) (b : Bool) → Still ext e o (halt ext e b)
  unfolding halt maybe_cleanup
  halt_quiet o false = Runs-read e _ λ task _. Runs-pure e _ tt
  halt_quiet o true =
      Runs-next e _ _
        (Runs-next e _ _ (Runs-notify_terminal_alert ext e attached) λ _. Runs-read e _ λ task _.
          Runs-if e _ _ _ (λ _. Runs-pure e _ tt)
            λ _. Runs-ask e ext (cleanup task.id) _ (λ _ _. tt) λ r. Runs-pure e _ tt)
        λ _. Runs-read e _ λ task _. Runs-pure e _ tt

  apply_outcome-Goes :
      (o : Task) (out : Outcome)
      → LeadsOn ext e o out
      → Goes {W = W} e (Same o) (λ _. Unit {0}) (apply_outcome ext e out)
  unfolding apply_outcome
  apply_outcome-Goes o out leads = Goes-read e _ λ task h.
      Goes-if e _ _ _
        (λ _. Goes-Runs e _ (
          Runs-next e _ _ (Runs-note ext e o attached out.trigger out.result task h)
            λ _. Runs-pure e _ tt))
        λ n.
          Goes-bind e _ _
            (Goes-advance ext e attached out.next out.trigger out.result o (edge n leads))
            λ _ _. Goes-Runs e _ (Runs-pure e _ tt)
    where
      edge : (out.next == "") ≡ false → LeadsOn ext e o out → Edge e.wf o.current_state out.next
      edge n (inr m) = m
      edge n (inl h) =
          let p : (out.next == "") ≡ true = ap (λ s. s == "") h ∙ ==_self {A = String} "" in cc

  round_result-Goes :
      (o : Task) (r : Result Outcome)
      → Post (LeadsOn ext e o) r
      → Goes {W = W} e (Same o) (λ _. Unit {0}) (round_result ext e r)
  unfolding round_result
  round_result-Goes o (ok out) q = apply_outcome-Goes o out q
  round_result-Goes o (err suspended) q = Goes-Runs e _ (Runs-pure e _ tt)
  round_result-Goes o (err _) q = Goes-Runs e _ (Runs-raise e _)

  abbrev pub AlongEdges : {A : Type 0} → M W A → Type 0
  AlongEdges m = Goes {W = W} e (λ _. Unit {0}) (λ _. Unit {0}) m

  drive_round-AlongEdges : AlongEdges (drive_round ext e)
  unfolding drive_round
  drive_round-AlongEdges =
      Goes-Same e _
        λ o _. Goes-after e _ _ (Runs-caught e _ (Runs-run_state ext e o)) (round_result-Goes o)

  drive_loop-AlongEdges :
      (rounds : ℕ) (transitioned : Bool) → AlongEdges (drive_loop ext e rounds transitioned)
  unfolding drive_loop
  drive_loop-AlongEdges zero transitioned = Goes-Runs e _ (Runs-raise e _)
  drive_loop-AlongEdges (suc rounds) transitioned = Goes-read e _ λ task _.
      Goes-if e _ _ _ (λ _. Goes-Same e _ λ o _. Goes-Runs e _ (halt_quiet o transitioned))
        λ _. Goes-bind e _ _ drive_round-AlongEdges λ moved _.
          Goes-if e moved _ _ (λ _. drive_loop-AlongEdges rounds true)
            (λ _. Goes-Runs e _ (Runs-read e _ λ t _. Runs-pure e _ tt))

  settle_cancelled-AlongEdges : AlongEdges (settle_cancelled ext e)
  unfolding settle_cancelled
  settle_cancelled-AlongEdges = Goes-Same e _ λ o _.
      Goes-bind e _ _
        (Goes-advance ext e detached cancel_state "operator.cancel" "" o (cancels refl))
        λ _ _. Goes-Runs e _ (Runs-pure e _ tt)

  settle_deadline-AlongEdges : AlongEdges (settle_deadline ext e)
  unfolding settle_deadline
  settle_deadline-AlongEdges = Goes-Same e _ λ o _. Goes-read e _ λ task h.
      Goes-bind e _ _
        (Goes-advance ext e detached _ "drive_deadline" _ o
          (escalates (ap (λ f. (escalation_target e.wf f).0) (sym h.state))))
        λ _ _.
          Goes-Runs e _
            (Runs-next e _ _ (Runs-notify_terminal_alert ext e detached) λ _. Runs-pure e _ tt)

  by_cause-AlongEdges : (x : Err) (why : Option Cause) → AlongEdges (by_cause ext e x why)
  unfolding by_cause
  by_cause-AlongEdges x (some operator_cancel) = settle_cancelled-AlongEdges
  by_cause-AlongEdges x (some drive_deadline) = settle_deadline-AlongEdges
  by_cause-AlongEdges x (some shutdown) = Goes-Runs e _ (Runs-raise e _)
  by_cause-AlongEdges x none = Goes-Runs e _ (Runs-raise e _)

  reclassify_cancel-AlongEdges : (r : Result String) → AlongEdges (reclassify_cancel ext e r)
  unfolding reclassify_cancel
  reclassify_cancel-AlongEdges (ok state) = Goes-Runs e _ (Runs-pure e _ tt)
  reclassify_cancel-AlongEdges (err x) =
      Goes-after e _ _ (Runs-get_cause e ext) λ why _. by_cause-AlongEdges x why

  pub Goes-drive : (rounds : ℕ) → AlongEdges (drive ext e rounds)
  unfolding drive
  Goes-drive rounds =
      Goes-bind e _ _ (Goes-caught e _ (drive_loop-AlongEdges rounds false))
        λ r _. reclassify_cancel-AlongEdges r

  -- A drive takes the task along declared edges only, each with its audit row; every other step of it
  -- leaves the state as it is. This holds for whatever the world answers, and for any number of rounds.
  pub drive-Reach : (rounds : ℕ) (s : Sys W) → Reach e s (drive ext e rounds s).1
  drive-Reach rounds s = ((Goes-drive rounds).at s tt).path
