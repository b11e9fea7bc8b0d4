-- ===== src/Engine/Advances.antt =====
-- The lemmas on `advance`: a move, and the steps after it.
use hounds_ciai.Prelude.{ℕ, String, ◌≡◌, refl, sym, subst, Option, none, some, string_eq}
use hounds_ciai.Store.{Task}
use hounds_ciai.Engine.Steps.{Same, Edge}
use hounds_ciai.Engine.Runs.{
  Same-trans, Same-sym, Runs, Runs-pure, Runs-if, Runs-set_task, Runs-read, Runs-next, Runs-ask,
}
use hounds_ciai.Config.Types.{source_label}
use hounds_ciai.Engine.Monad.{
  World, Engine, M, Ctx, continue, get_task, pr_status, remove_label, ◌>>=◌,
}
use hounds_ciai.Engine.Transitions.{
  read_head, head_baseline, maybe_drain_label, record_baseline, advance,
}
use hounds_ciai.Engine.Paths.{Goes, Goes-Runs, Goes-Same, Goes-moves}
use hounds_ciai.Engine.Quietly.Writes.{Runs-persist}

module _ {W : Type 0} (ext : World W) (e : Engine) where
  module _ (o : Task) where
    abbrev pub Still : {A : Type 0} → M W A → Type 0
    Still m = Runs {W = W} e (Same o) (λ _. Unit {0}) m

    head_baseline_quiet :
        (task : Task) → (n : Option ℕ) → task.pr_number ≡ n → Still (head_baseline ext e task)
    unfolding head_baseline read_head
    head_baseline_quiet task none h = rw h (Runs-pure e _ tt)
    head_baseline_quiet task (some pr) h = rw h (
        Runs-if e _ _ _ (λ _. Runs-ask e ext (pr_status pr) _ (λ _ _. tt) λ r. Runs-pure e _ tt)
          (λ _. Runs-pure e _ tt))

    record_baseline_quiet : Still (record_baseline ext e)
    unfolding record_baseline
    record_baseline_quiet = Runs-read e _ λ task h.
        Runs-next e _ _ (head_baseline_quiet task task.pr_number refl) λ head.
          let changed : Same task (record task { state_entry_head = head }) = record {
            id = refl;
            issue = refl;
            branch = refl;
            snapshot = refl;
            state = refl;
          } in
          Runs-set_task e _ (Same-trans h changed)
            (λ u i. Same-trans (Same-sym i) (Same-trans h changed))

    maybe_drain_label_quiet : (task : Task) → Still (maybe_drain_label ext e task)
    unfolding maybe_drain_label
    maybe_drain_label_quiet task =
        Runs-if e _ _ _ (λ _. Runs-pure e _ tt)
          λ _.
            Runs-ask e ext (remove_label task.issue (source_label e.wf)) _ (λ _ _. tt)
              λ r. Runs-pure e _ tt

  pub Goes-advance :
      (c : Ctx) (next trigger result : String) (o : Task)
      → Edge e.wf o.current_state next
      → Goes {W = W} e (Same o) (λ _. Unit {0}) (advance ext e c next trigger result)
  unfolding advance ◌>>=◌ continue get_task
  Goes-advance c next trigger result o m = record {
    at = λ s i.
        (Goes-moves ext e c next s.task trigger result _
            (subst (λ f. Edge e.wf f next) (sym i.state) m)
            (Goes-Same e _ λ u _. Goes-Runs e _ (
              Runs-next e _ _ (record_baseline_quiet u) λ _.
                Runs-next e _ _ (Runs-persist ext e u c)
                  λ _. Runs-read e _ λ task _. maybe_drain_label_quiet u task))).at
          s refl;
  }
