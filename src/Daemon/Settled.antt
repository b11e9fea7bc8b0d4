-- ===== src/Daemon/Settled.antt =====
-- cmd/orchestratord/main.go, settledStates against the engine's own notion of a settled state.
use hounds_ciai.Prelude.{
  ℕ, String, Bool, true, false, not, ◌&&◌, ◌||◌, ◌≡◌, refl, sym, ◌∙◌, ap, some, List, [], ◌∷◌, ◌++◌,
  ◌==◌, string_eq, nat_eq, if◌then◌else◌, contains, filter, Bool-cases, Option-cases, ==_true,
  ==_comm, inl, inr, arith,
}
use hounds_ciai.Prelude.Maps.{lookup, keys, has_key, has_key-lookup}
use hounds_ciai.Result.{Result, ok}
use hounds_ciai.Config.Types.{Workflow, state_of, dry_run_enabled}
use hounds_ciai.Store.{Task, Store, get_task}
use hounds_ciai.Engine.Monad.{Engine}
use hounds_ciai.Engine.Lookup.{cancel_state, is_terminal, is_settled}
use hounds_ciai.Engine.Naming.{task_id}
use hounds_ciai.Scheduler.{Sched, already_settled, readiness, enqueue_ready, enqueue_one}
use hounds_ciai.Daemon.{terminal_states, merges_pr, settled_states, done_of, done_check}

contains-append :
    (xs ys : List String) (x : String) → contains (xs ++ ys) x ≡ (contains xs x || contains ys x)
contains-append [] ys x = refl
contains-append (y ∷ xs) ys x = elim (Bool-cases (y == x)) [
  | inl e ↦ rw e refl
  | inr e ↦ rw e (contains-append xs ys x)
]

contains-filter :
    (p : String → Bool) (xs : List String) (x : String)
    → contains (filter p xs) x ≡ (contains xs x && p x)
contains-filter p [] x = refl
contains-filter p (y ∷ xs) x = elim (Bool-cases (y == x)) [
  | inl e ↦ rw (==_true y x e) (ground (arith, contains-filter p xs x))
  | inr e ↦ rw e (elim (Bool-cases (p y)) [
    | inl q ↦ rw (q, e) (contains-filter p xs x)
    | inr q ↦ rw q (contains-filter p xs x)
  ])
]

contains-keys :
    {V : Type 0} (m : List (String × V)) (x : String) → contains (keys m) x ≡ has_key x m
contains-keys [] x = refl
contains-keys ((k, v) ∷ m) x = ground (arith, contains-keys m x)

module _ (wf : Workflow) (s : String) where
  -- `isTerminal` reads the same verdict as a scan over the declared states.
  is_terminal-state_of :
      is_terminal wf s ≡ (has_key s wf.states && not ((state_of wf s).terminal == ""))
  unfolding is_terminal state_of
  is_terminal-state_of = elim (Bool-cases (has_key s wf.states)) [
    | inr e ↦ rw (is_terminal, e, has_key-lookup s wf.states e) refl
    | inl e ↦ rw e (elim (Option-cases (lookup s wf.states)) [
      | inl q ↦ rw (is_terminal, q) refl
      | inr (st, q) ↦ rw (is_terminal, q) refl
    ])
  ]

  merging-declared : merges_pr (state_of wf s) ≡ true → has_key s wf.states ≡ true
  unfolding state_of
  merging-declared = elim (Bool-cases (has_key s wf.states)) [
    | inl e ↦ λ h. e
    | inr e ↦ rw (has_key-lookup s wf.states e) (λ h. cc)
  ]

  merging : Bool
  merging = dry_run_enabled wf.policies && merges_pr (state_of wf s)

  contains-merging :
      contains
        (if dry_run_enabled wf.policies
          then filter (λ n. merges_pr (state_of wf n)) (keys wf.states)
          else [])
        s
      ≡ merging
  unfolding merging
  contains-merging = elim (Bool-cases (dry_run_enabled wf.policies)) [
    | inr e ↦ rw e refl
    | inl e ↦ rw e (
        contains-filter (λ n. merges_pr (state_of wf n)) (keys wf.states) s
        ∙ (ap (λ (b : Bool). b && merges_pr (state_of wf s)) (contains-keys wf.states s)
            ∙ declared_only))
  ]
    where
      declared_only : (has_key s wf.states && merges_pr (state_of wf s)) ≡ merges_pr (state_of wf s)
      declared_only = ground (arith, merging-declared)

regroup : (t c m : Bool) → (t || (if c then true else m)) ≡ ((c || t) || m)
regroup true true m = refl
regroup true false m = refl
regroup false true m = refl
regroup false false m = refl

-- The daemon counts a state as settled exactly when the engine does, or when dry_run is on and the
-- state's entry merges, where a drive halts without an end.
pub settled_states_lem :
    (e : Engine) (s : String)
    → contains (settled_states e.wf) s
      ≡ (is_settled e s || (dry_run_enabled e.wf.policies && merges_pr (state_of e.wf s)))
unfolding settled_states terminal_states is_settled merging
settled_states_lem e s =
    let left =
      contains-append (terminal_states e.wf)
        (cancel_state
          ∷ (if dry_run_enabled e.wf.policies
              then filter (λ n. merges_pr (state_of e.wf n)) (keys e.wf.states)
              else []))
        s in
    let ends = contains-filter (λ n. not ((state_of e.wf n).terminal == "")) (keys e.wf.states) s in
    let terminal : contains (terminal_states e.wf) s ≡ is_terminal e.wf s =
      ends
      ∙ (ap (λ (b : Bool). b && not ((state_of e.wf s).terminal == ""))
            (contains-keys e.wf.states s)
          ∙ sym (is_terminal-state_of e.wf s)) in
    let m = merging e.wf s in
    let rest = λ (b : Bool). if cancel_state == s then true else b in
    left
    ∙ (ap
          (λ (b : Bool).
            b
            || rest (
                contains
                  (if dry_run_enabled e.wf.policies
                    then filter (λ n. merges_pr (state_of e.wf n)) (keys e.wf.states)
                    else [])
                  s))
          terminal
        ∙ (ap (λ (b : Bool). is_terminal e.wf s || rest b) (contains-merging e.wf s)
            ∙ (ap (λ (b : Bool). is_terminal e.wf s || (if b then true else m))
                  (==_comm cancel_state s)
                ∙ regroup (is_terminal e.wf s) (s == cancel_state) m)))

settled_done :
    (settled : List String) (store : Store) (issue : ℕ) (t : Task)
    → get_task (task_id issue) store ≡ ok t
    → contains settled t.current_state ≡ true
    → done_check settled store issue ≡ (ok true, true)
unfolding done_check done_of
settled_done settled store issue t found is = rw (done_check, found) (simp is refl)

-- An issue that is not in flight, and whose task the engine has settled, or left in a merge state under
-- dry_run, is not queued again: the scheduler, asking the daemon's check, refuses it as settled and changes nothing, and the
-- check asks for its label to be removed.
pub enqueue_one-settled :
    (e : Engine) (store : Store) (issue : ℕ) (t : Task) (s : Sched)
    → get_task (task_id issue) store ≡ ok t
    → (is_settled e t.current_state
        || (dry_run_enabled e.wf.policies && merges_pr (state_of e.wf t.current_state)))
      ≡ true
    → has_key issue s.inflight ≡ false
    → (enqueue_one (some (λ i. (done_check (settled_states e.wf) store i).0)) issue s
        ≡ (some already_settled, s))
      × ((done_check (settled_states e.wf) store issue).1 ≡ true)
unfolding enqueue_one readiness enqueue_ready
enqueue_one-settled e store issue t s found is free =
    let check =
      settled_done (settled_states e.wf) store issue t found
        (settled_states_lem e t.current_state ∙ is) in
    (
      rw (enqueue_one, free) (ap (λ (r : Result Bool × Bool). enqueue_ready r.0 issue s) check),
      ap (λ (r : Result Bool × Bool). r.1) check,
    )
