-- ===== src/Engine/Recovering.antt =====
-- internal/engine/engine.go: the sweep over every stored task at the daemon's start.
use hounds_ciai.Prelude.{ap, ◌∙◌, Bool-cases, inl, inr, if◌then◌else◌, ◌≡◌, refl, ℕ, List, [], ◌∷◌}
use hounds_ciai.Result.{Result, ok, err}
use hounds_ciai.Store.{Task, list_tasks}
use hounds_ciai.Engine.Monad.{
  World, Engine, Sys, M, attached, pure, branch, caught, continue, get_store, set_task,
  statement_ok, ◌>>=◌, ◌>>◌,
}
use hounds_ciai.Engine.Lookup.{is_halt}
use hounds_ciai.Engine.Driving.{drive}
use hounds_ciai.Engine.Resuming.{reconcile, engine_for_task}

module _ {W : Type 0} (ext : World W) where
  -- A task that could not be reconciled is not driven; a failed drive is only logged.
  unfoldable pub resume_reconciled : Engine → ℕ → Result (Unit {0}) → M W (Unit {0})
  resume_reconciled eng rounds (err x) = pure tt
  resume_reconciled eng rounds (ok u) = caught (drive ext eng rounds) >>= λ r. pure tt

  unfoldable pub recover_with : Task → ℕ → Result Engine → M W (Unit {0})
  unfolding resume_reconciled
  recover_with task rounds (err x) = pure tt
  recover_with task rounds (ok eng) =
      branch (is_halt eng task.current_state) (pure tt)
        (set_task task >>= λ u. caught (reconcile ext eng) >>= resume_reconciled eng rounds)

  unfoldable pub recover_all : Engine → ℕ → List Task → M W (Unit {0})
  unfolding recover_with
  recover_all e rounds [] = pure tt
  recover_all e rounds (task ∷ tasks) =
      recover_with task rounds (engine_for_task ext e task) >>= λ u. recover_all e rounds tasks

  -- `Recover`.
  unfoldable pub recover : Engine → ℕ → M W (Unit {0})
  unfolding recover_all
  recover e rounds = do
    statement_ok ext attached
    d ← get_store
    recover_all e rounds (list_tasks d)

  -- What the sweep should leave of a system for one task: nothing changes for a task whose snapshot is
  -- invalid or whose state halts; any other is reconciled and, if that succeeds, driven, whichever way
  -- the drive ends.
  abbrev after_reconcile : Engine → ℕ → Result (Unit {0}) × Sys W → Sys W
  after_reconcile eng rounds (err x, t) = t
  after_reconcile eng rounds (ok u, t) = (drive ext eng rounds t).1

  abbrev swept_by : Task → ℕ → Result Engine → Sys W → Sys W
  swept_by task rounds (err x) s = s
  swept_by task rounds (ok eng) s =
      if is_halt eng task.current_state
      then s
      else after_reconcile eng rounds (reconcile ext eng (record s { task = task }))

  -- One task after the other, each from what the one before it left.
  abbrev pub swept : Engine → ℕ → List Task → Sys W → Sys W
  swept e rounds [] s = s
  swept e rounds (task ∷ tasks) s =
      swept e rounds tasks (swept_by task rounds (engine_for_task ext e task) s)

  resume_reconciled-after :
      (eng : Engine) (rounds : ℕ) (r : Result (Unit {0})) (s : Sys W)
      → resume_reconciled eng rounds r s ≡ (ok tt, after_reconcile eng rounds (r, s))
  unfolding resume_reconciled caught pure ◌>>=◌ continue
  resume_reconciled-after eng rounds (err x) s = refl
  resume_reconciled-after eng rounds (ok u) s = refl

  recover_with-swept :
      (task : Task) (rounds : ℕ) (r : Result Engine) (s : Sys W)
      → recover_with task rounds r s ≡ (ok tt, swept_by task rounds r s)
  unfolding recover_with pure branch set_task caught ◌>>=◌ continue
  recover_with-swept task rounds (err x) s = refl
  recover_with-swept task rounds (ok eng) s = elim (Bool-cases (is_halt eng task.current_state)) [
    | inl h ↦ rw h refl
    | inr h ↦ rw h (resume_reconciled-after eng rounds _ _)
  ]

  -- The sweep goes on past each task that fails, for an invalid snapshot, a failed reconcile or a
  -- failed drive: over any list of tasks, in any world, it ends without an error, with the system that
  -- one task after the other leaves, each reconciled and driven from what the one before it left.
  pub recover_all-swept :
      (e : Engine) (rounds : ℕ) (tasks : List Task) (s : Sys W)
      → recover_all e rounds tasks s ≡ (ok tt, swept e rounds tasks s)
  unfolding recover_all pure ◌>>=◌ continue
  recover_all-swept e rounds [] s = refl
  recover_all-swept e rounds (task ∷ tasks) s =
      ap (continue (λ (u : Unit {0}). recover_all e rounds tasks))
        (recover_with-swept task rounds (engine_for_task ext e task) s)
      ∙ recover_all-swept e rounds tasks _
