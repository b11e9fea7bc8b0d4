-- ===== src/Engine/Quietly/States.antt =====
-- The lemmas on a state's work: its steps and its outcome.
use hounds_ciai.Prelude.{String, ◌≡◌, refl, sym, subst, Option, none, some, string_eq, find?-some}
use hounds_ciai.Store.{Task}
use hounds_ciai.Engine.Steps.{Same, direct}
use hounds_ciai.Engine.Runs.{Runs, Runs-pure, Runs-raise, Runs-if, Runs-bind, Runs-read, Runs-next}
use hounds_ciai.Config.Types.{State, Entry, Transition, state_of}
use hounds_ciai.Engine.Monad.{World, Engine, M}
use hounds_ciai.Engine.Merging.{Outcome}
use hounds_ciai.Engine.Driving.{
  gate_once, wait_status, wait_agent, fire_or_wait, await_trigger, count_round, resume_or_give_up,
  run_entry, run_state,
}
use hounds_ciai.Engine.Quietly.Gates.{Runs-evaluate_gate}
use hounds_ciai.Engine.Quietly.Leads.{
  leads_or_halts, find_event-In, find_timeout-In, Leads-to, Leads-branch,
}
use hounds_ciai.Engine.Quietly.Spawning.{Runs-spawn, Escapes, Runs-check_retry_cap}
use hounds_ciai.Engine.Quietly.Merging.{Runs-run_merge_action}
use hounds_ciai.Engine.Quietly.Waiting.{
  Declared, LeadsOn, Runs-evaluate_gate_or_suspend, Runs-await_agent_state,
}

module _ {W : Type 0} (ext : World W) (e : Engine) (o : Task) where
  abbrev here_state : State
  here_state = state_of e.wf o.current_state

  abbrev Led : M W Outcome → Type 0
  Led m = Runs {W = W} e (Same o) (LeadsOn ext e o) m

  gate_once_leads : (t : Transition) → Declared ext e o t → Led (gate_once ext e t)
  unfolding gate_once
  gate_once_leads t m = Runs-next e _ _ (Runs-evaluate_gate ext e o t) λ verdict.
      Runs-pure e _ (Leads-branch e.wf o.current_state t verdict "status.changed" verdict m)

  wait_status_leads :
      (g t : Option Transition)
      → ((u : Transition) → g ≡ some u → Declared ext e o u)
      → ((u : Transition) → t ≡ some u → Declared ext e o u)
      → Led (wait_status ext e g t)
  unfolding wait_status
  wait_status_leads none t mg mt = Runs-raise e _
  wait_status_leads (some g) none mg mt = gate_once_leads g (mg g refl)
  wait_status_leads (some g) (some t) mg mt =
      Runs-evaluate_gate_or_suspend ext e o g t (mg g refl) (mt t refl)

  wait_agent_leads :
      (t : Option Transition)
      → ((u : Transition) → t ≡ some u → Declared ext e o u)
      → Led (wait_agent ext e here_state t)
  unfolding wait_agent
  wait_agent_leads none m =
      wait_status_leads _ _ (find_event-In here_state "status.changed") (find_timeout-In here_state)
  wait_agent_leads (some t) m = Runs-await_agent_state ext e o t (m t refl)

  fire_or_wait_leads :
      (t : Option Transition)
      → ((u : Transition) → t ≡ some u → Declared ext e o u)
      → Led (fire_or_wait ext e here_state t)
  unfolding fire_or_wait
  fire_or_wait_leads (some t) m =
      Runs-pure e _ (Leads-to e.wf o.current_state t t.when.event "" (m t refl))
  fire_or_wait_leads none m = wait_agent_leads _ (find_event-In here_state "agent.done")

  await_trigger_leads : Led (await_trigger ext e here_state)
  unfolding await_trigger
  await_trigger_leads = fire_or_wait_leads _ (λ u h. (find?-some _ here_state.transitions h).0)

  resume_leads :
      (en : Entry) (target : Option String)
      → Escapes ext e o here_state target
      → Led (resume_or_give_up ext e here_state en target)
  unfolding resume_or_give_up
  resume_leads en (some target) (t, m, h) =
      Runs-pure e _ (leads_or_halts e.wf _ target (direct t m h))
  resume_leads en none q =
      Runs-next e _ _ (Runs-spawn ext e o en.resume here_state) λ _. await_trigger_leads

  run_entry_leads :
      (en : Option Entry) → here_state.entry ≡ en → Led (run_entry ext e here_state en)
  unfolding run_entry count_round
  run_entry_leads none h = await_trigger_leads
  run_entry_leads (some en) h =
      Runs-if e _ _ _
        (λ _. Runs-next e _ _ (Runs-spawn ext e o en.spawn here_state) λ _. await_trigger_leads)
        λ _.
          Runs-if e _ _ _
            (λ _.
              Runs-bind e _ _
                (Runs-read e _ λ task _.
                  Runs-if e _ _ _ (λ _. Runs-check_retry_cap ext e o here_state)
                    (λ _. Runs-pure e none tt))
                (resume_leads en))
            λ _.
              Runs-if e _ _ _ (λ _. Runs-run_merge_action ext e o en h) (λ _. await_trigger_leads)

  pub Runs-run_state : Led (run_state ext e)
  unfolding run_state
  Runs-run_state = Runs-read e _ λ task h.
      subst (λ f. Led (run_entry ext e (state_of e.wf f) (state_of e.wf f).entry)) (sym h.state)
        (run_entry_leads here_state.entry refl)
