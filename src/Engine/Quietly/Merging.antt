-- ===== src/Engine/Quietly/Merging.antt =====
-- The lemmas on the merge action: its steps and its outcome.
use hounds_ciai.Prelude.{
  ℕ, Bool, true, false, not, ◌≡◌, refl, sym, ◌∙◌, ap, subst, Option, none, some, string_eq, In, inl,
  ==_true,
}
use hounds_ciai.Store.{Task}
use hounds_ciai.Engine.Steps.{Same, MayMerge, entry_action}
use hounds_ciai.Engine.Runs.{
  Runs, Runs-pure, Runs-raise, Runs-if, Runs-frozen, Runs-read, Runs-next, Runs-ask, Runs-ok,
  Runs-some, Runs-done,
}
use hounds_ciai.Config.Types.{Entry, Transition, state_of}
use hounds_ciai.Engine.Monad.{World, Engine, merge, pr_status, close_issue, delete_remote_branch}
use hounds_ciai.Engine.Merging.{
  settle_merged, merge_open_pr, ensure_merged, fire_merged, merge_pr_action, run_merge_action,
}
use hounds_ciai.Engine.Quietly.Leads.{Leads, find_event-In, Leads-to}

module _ {W : Type 0} (ext : World W) (e : Engine) (o : Task) where
  abbrev Is : Task → Type 0
  Is t = t ≡ o

  settle_merged_quiet : Runs {W = W} e Is (λ _. Unit {0}) (settle_merged ext)
  unfolding settle_merged
  settle_merged_quiet = Runs-read e _ λ task _.
      Runs-ask e ext (close_issue task.issue) _ (λ _ _. tt)
        λ _. Runs-ask e ext (delete_remote_branch task.branch) _ (λ _ _. tt) λ _. Runs-pure e _ tt

  merge_open_pr_quiet :
      (pr : ℕ) → MayMerge e o pr → Runs {W = W} e Is (λ _. Unit {0}) (merge_open_pr ext pr)
  unfolding merge_open_pr
  merge_open_pr_quiet pr may =
      Runs-ask e ext (merge pr) _ (λ t h. subst (λ t. MayMerge e t pr) (sym h) may)
        λ r. Runs-ok e r _ λ _.
          Runs-ask e ext (pr_status pr) _ (λ _ _. tt)
            λ s.
              Runs-ok e s _ λ status. Runs-if e _ _ _ (λ _. Runs-raise e _) (λ _. Runs-pure e _ tt)

  ensure_merged_quiet :
      (pr : ℕ) → MayMerge e o pr → Runs {W = W} e Is (λ _. Unit {0}) (ensure_merged ext pr)
  unfolding ensure_merged
  ensure_merged_quiet pr may =
      Runs-ask e ext (pr_status pr) _ (λ _ _. tt)
        λ s.
          Runs-ok e s _
            λ status. Runs-if e _ _ _ (λ _. merge_open_pr_quiet pr may) (λ _. Runs-pure e _ tt)

  fire_merged-Leads :
      (t : Option Transition)
      → ((u : Transition) → t ≡ some u → In u (state_of e.wf o.current_state).transitions)
      → Runs {W = W} e Is (Leads e.wf o.current_state) (fire_merged ext t)
  unfolding fire_merged
  fire_merged-Leads none m = Runs-raise e _
  fire_merged-Leads (some t) m =
      Runs-done e _ _ settle_merged_quiet
        (Leads-to e.wf o.current_state t "pr.merged" "" (m t refl))

  frozen_merge :
      (en : Entry)
      → (state_of e.wf o.current_state).entry ≡ some en
      → Runs {W = W} e Is
          (Leads e.wf o.current_state)
          (run_merge_action ext e (state_of e.wf o.current_state) en.action)
  unfolding run_merge_action merge_pr_action
  frozen_merge en h =
      Runs-if e _ _ _ (λ _. Runs-raise e _)
        λ is_merge. Runs-read e _ λ task i. Runs-some e _ _ _ λ pr own.
          Runs-if e _ _ _ (λ _. Runs-pure e _ (inl refl))
            λ wet.
              Runs-next e _ _
                (ensure_merged_quiet pr (record {
                  wet = wet;
                  merge_state = ap entry_action h ∙ ==_true _ _ (not_false _ is_merge);
                  own_pr = subst (λ t. t.pr_number ≡ some pr) i own;
                }))
                λ _. fire_merged-Leads _ (λ u. find_event-In _ "pr.merged" u)
    where
      not_false : (b : Bool) → not b ≡ false → b ≡ true
      not_false true h = refl
      not_false false h = cc

module _ {W : Type 0} (ext : World W) (e : Engine) (o : Task) where
  pub Runs-run_merge_action :
      (en : Entry)
      → (state_of e.wf o.current_state).entry ≡ some en
      → Runs {W = W} e
          (Same o)
          (Leads e.wf o.current_state)
          (run_merge_action ext e (state_of e.wf o.current_state) en.action)
  Runs-run_merge_action en h = Runs-frozen e _ λ t i.
      subst
        (λ f.
          (state_of e.wf f).entry ≡ some en
          → Runs {W = W} e (λ u. u ≡ t) (Leads e.wf f)
              (run_merge_action ext e (state_of e.wf f) en.action))
        i.state (frozen_merge ext e t en) h
