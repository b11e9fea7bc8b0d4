-- ===== src/Engine/Quietly/Gates.antt =====
-- The lemmas on gates and decisions: their steps, and what a gate may record.
use hounds_ciai.Prelude.{ℕ, String, true, refl, Option, none, some, List, [], ◌∷◌, string_eq}
use hounds_ciai.Store.{Task}
use hounds_ciai.Engine.Steps.{Same}
use hounds_ciai.Engine.Runs.{
  Same-trans, Same-sym, Runs, Runs-pure, Runs-raise, Runs-or_raise, Runs-if, Runs-set_task,
  Runs-read, Runs-next, Runs-ask, Runs-ok, Runs-some, Runs-done,
}
use hounds_ciai.Github.{PrStatus}
use hounds_ciai.Config.Types.{Gate, Transition, gate_refs, decision_ref}
use hounds_ciai.Engine.Monad.{World, Engine, M, Verdict, find_pr, pr_status, read_verdict}
use hounds_ciai.Engine.Gates.{
  found_pr, pr_exists, commits_moved, gate_pass, fetch_for, need_status, decide_gate, gate_round,
  or_fail, eval_gates, evaluate_gate, accept_verdict, try_decision_verdict, evaluate_decision,
  evaluate_done, status_or_none,
}

module _ {W : Type 0} (ext : World W) (e : Engine) (o : Task) where
  found_pr_quiet : (r : Option ℕ) → Runs {W = W} e (Same o) (λ _. Unit {0}) (found_pr ext r)
  unfolding found_pr
  found_pr_quiet none = Runs-pure e _ tt
  found_pr_quiet (some n) = Runs-read e _ λ task h.
      let found : Same task (record task { pr_number = some n }) = record {
        id = refl;
        issue = refl;
        branch = refl;
        snapshot = refl;
        state = refl;
      } in
      Runs-done e _ true
        (Runs-set_task e _ (Same-trans h found)
          (λ u i. Same-trans (Same-sym i) (Same-trans h found)))
        tt

  pr_exists_quiet : Runs {W = W} e (Same o) (λ _. Unit {0}) (pr_exists ext)
  unfolding pr_exists
  pr_exists_quiet =
      Runs-read e _ λ task h.
        Runs-ask e ext (find_pr task.branch) _ (λ _ _. tt) λ r. Runs-ok e r _ found_pr_quiet

  commits_moved_quiet :
      (task : Task) (s : PrStatus)
      → Runs {W = W} e (Same o) (λ _. Unit {0}) (commits_moved ext task s)
  unfolding commits_moved
  commits_moved_quiet task s =
      Runs-if e _ _ _ (λ _. Runs-pure e _ tt)
        λ _. Runs-if e _ _ _ (λ _. Runs-raise e _) (λ _. Runs-pure e _ tt)

  gate_pass_quiet :
      (g : Gate) (s : PrStatus) → Runs {W = W} e (Same o) (λ _. Unit {0}) (gate_pass ext g s)
  unfolding gate_pass
  gate_pass_quiet g s =
      Runs-if e _ _ _ (λ _. pr_exists_quiet)
        λ _.
          Runs-if e _ _ _ (λ _. Runs-pure e _ tt)
            λ _.
              Runs-if e _ _ _ (λ _. Runs-pure e _ tt)
                λ _.
                  Runs-if e _ _ _ (λ _. Runs-read e _ λ task _. commits_moved_quiet task s)
                    λ _. Runs-if e _ _ _ (λ _. Runs-pure e _ tt) (λ _. Runs-raise e _)

  fetch_for_quiet : (n : Option ℕ) → Runs {W = W} e (Same o) (λ _. Unit {0}) (fetch_for ext n)
  unfolding fetch_for
  fetch_for_quiet none = Runs-pure e _ tt
  fetch_for_quiet (some n) =
      Runs-ask e ext (pr_status n) _ (λ _ _. tt) λ r. Runs-ok e r _ λ s. Runs-pure e _ tt

  need_status_quiet :
      (g : Gate) (s : Option PrStatus)
      → Runs {W = W} e (Same o) (λ _. Unit {0}) (need_status ext g s)
  unfolding need_status
  need_status_quiet g (some s) = Runs-pure e _ tt
  need_status_quiet g none =
      Runs-if e _ _ _ (λ _. Runs-pure e _ tt)
        λ _. Runs-read e _ λ task _. Runs-next e _ _ (fetch_for_quiet _) λ s. Runs-pure e _ tt

  decide_gate_quiet :
      (g : Gate) (s : Option (Option PrStatus))
      → Runs {W = W} e (Same o) (λ _. Unit {0}) (decide_gate ext g s)
  unfolding decide_gate
  decide_gate_quiet g none = Runs-pure e _ tt
  decide_gate_quiet g (some s) =
      Runs-next e _ _ (gate_pass_quiet g (status_or_none s)) λ p. Runs-pure e _ tt

  gate_round_quiet :
      (name : String) (s : Option PrStatus)
      → Runs {W = W} e (Same o) (λ _. Unit {0}) (gate_round ext e name s)
  unfolding gate_round
  gate_round_quiet name s =
      Runs-some e _ _ _
        λ g _. Runs-next e _ _ (need_status_quiet g s) λ need. decide_gate_quiet g need

  or_fail_quiet :
      (rest : Option PrStatus → M W String) (s : Option (Option PrStatus))
      → ((s : Option PrStatus) → Runs {W = W} e (Same o) (λ _. Unit {0}) (rest s))
      → Runs {W = W} e (Same o) (λ _. Unit {0}) (or_fail ext rest s)
  unfolding or_fail
  or_fail_quiet rest none k = Runs-pure e _ tt
  or_fail_quiet rest (some s) k = k s

  eval_gates_quiet :
      (names : List String) (s : Option PrStatus)
      → Runs {W = W} e (Same o) (λ _. Unit {0}) (eval_gates ext e names s)
  unfolding eval_gates
  eval_gates_quiet [] s = Runs-pure e _ tt
  eval_gates_quiet (name ∷ names) s =
      Runs-next e _ _ (gate_round_quiet name s)
        λ r. or_fail_quiet (eval_gates ext e names) r (eval_gates_quiet names)

  pub Runs-evaluate_gate :
      (t : Transition) → Runs {W = W} e (Same o) (λ _. Unit {0}) (evaluate_gate ext e t)
  unfolding evaluate_gate
  Runs-evaluate_gate t = eval_gates_quiet (gate_refs t) none

  accept_verdict_quiet :
      (vs : List String) (v : Option Verdict)
      → Runs {W = W} e (Same o) (λ _. Unit {0}) (accept_verdict ext vs v)
  unfolding accept_verdict
  accept_verdict_quiet vs none = Runs-pure e _ tt
  accept_verdict_quiet vs (some v) = Runs-if e _ _ _ (λ _. Runs-pure e _ tt) (λ _. Runs-raise e _)

  pub Runs-try_decision_verdict :
      (name : String) → Runs {W = W} e (Same o) (λ _. Unit {0}) (try_decision_verdict ext e name)
  unfolding try_decision_verdict
  Runs-try_decision_verdict name = Runs-some e _ _ _ λ d _.
      Runs-if e _ _ _ (λ _. Runs-raise e _)
        λ _. Runs-read e _ λ task _.
          Runs-ask e ext (read_verdict task.id) _ (λ _ _. tt)
            λ r. Runs-ok e r _ λ v. accept_verdict_quiet d.verdicts v

  pub Runs-evaluate_done :
      (t : Transition) → Runs {W = W} e (Same o) (λ _. Unit {0}) (evaluate_done ext e t)
  unfolding evaluate_done evaluate_decision
  Runs-evaluate_done t =
      Runs-if e _ _ _
        (λ _.
          Runs-next e _ _ (Runs-try_decision_verdict (decision_ref t))
            λ v. Runs-or_raise e v _ (λ _ _. tt))
        λ _. Runs-if e _ _ _ (λ _. Runs-evaluate_gate t) (λ _. Runs-raise e _)
