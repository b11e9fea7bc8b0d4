-- ===== src/Engine/Promises.antt =====
-- Corollaries of the refinement of a drive: walks, merges, the chain of the log, other tasks.
use hounds_ciai.Prelude.{
  ℕ, suc, String, true, ◌≡◌, ◌≢◌, refl, sym, ◌∙◌, ap, subst, List, [], ◌∷◌, ◌==◌, string_eq,
  if◌then◌else◌, ==_self,
}
use hounds_ciai.Config.Types.{Workflow, dry_run_enabled}
use hounds_ciai.Store.{Task, AuditEntry, Store, get_task}
use hounds_ciai.Store.Laws.{update_task-get_task_ne, update_task-log}
use hounds_ciai.Engine.Monad.{World, Engine, Sys, Call, merge}
use hounds_ciai.Engine.Steps.{
  Quiet, stay, calls, adjusts, saves, notes, Reach, quiet, moves, Same, MayCall, Edge, IsRow,
}
use hounds_ciai.Engine.Runs.{Quiet-Same}
use hounds_ciai.Engine.Driving.{drive}
use hounds_ciai.Engine.Refines.{drive-Reach}

-- A walk along the workflow's edges.
pub data Walk (wf : Workflow) (from : String) : String → Type 0 where
  stands : Walk wf from from
  steps : {mid to : String} → Walk wf from mid → Edge wf mid to → Walk wf from to

-- The number of calls that merge.
unfoldable pub merges : List Call → ℕ
merges [] = 0
merges (merge pr ∷ cs) = suc (merges cs)
merges (_ ∷ cs) = merges cs

-- The log, newest first, tells of task `id` an unbroken chain of states that ends in `at`.
unfoldable pub Chained : String → String → List AuditEntry → Type 0
Chained id at [] = Unit
Chained id at (row ∷ rows) =
    if row.task_id == id
    then (row.to_state ≡ at) × Chained id row.from_state rows
    else Chained id at rows

-- The same task, its state aside.
pub record Known (t u : Task) : Type 0 where
  pub id : u.id ≡ t.id
  pub issue : u.issue ≡ t.issue
  pub branch : u.branch ≡ t.branch
  pub snapshot : u.workflow_snapshot ≡ t.workflow_snapshot

Known-then : {t u v : Task} → Known t u → Same u v → Known t v
Known-then p q = record {
  id = q.id ∙ p.id;
  issue = q.issue ∙ p.issue;
  branch = q.branch ∙ p.branch;
  snapshot = q.snapshot ∙ p.snapshot;
}

Known-moved :
    {t u v : Task} (at : String) → Known t u → Same (record u { current_state = at }) v → Known t v
Known-moved at p q = record {
  id = q.id ∙ p.id;
  issue = q.issue ∙ p.issue;
  branch = q.branch ∙ p.branch;
  snapshot = q.snapshot ∙ p.snapshot;
}

no_merge :
    (e : Engine) (t : Task) (c : Call) (cs : List Call)
    → dry_run_enabled e.wf.policies ≡ true
    → MayCall e t c
    → merges (c ∷ cs) ≡ merges cs
unfolding merges
no_merge e t (merge pr) cs dry may = let wet = may.wet in cc
no_merge e t _ cs dry may = refl

abbrev Told : Task → Store → Type 0
Told t d = Chained t.id t.current_state d.log

told_row :
    (id from to : String) (row : AuditEntry) (rows log : List AuditEntry)
    → IsRow row id from to
    → log ≡ row ∷ rows
    → Chained id from rows
    → Chained id to log
unfolding Chained
told_row id from to row rows log r l h = subst (Chained id to) (sym l) (
    rw (ap (λ s. s == id) r.task_id ∙ ==_self id)
      (r.to_state, subst (λ f. Chained id f rows) (sym r.from_state) h))

Told-Same : (t u : Task) (d : Store) → Same t u → Told t d → Told u d
Told-Same t u d same h =
    subst (λ id. Chained id u.current_state d.log) (sym same.id)
      (subst (λ f. Chained t.id f d.log) (sym same.state) h)

module _ {W : Type 0} (e : Engine) where
  Reach-Known : {s t : Sys W} → Reach e s t → Known s.task t.task
  Reach-Known (quiet p) =
      Known-then (record { id = refl; issue = refl; branch = refl; snapshot = refl })
        (Quiet-Same e p)
  Reach-Known (moves d row next p r i m l q) =
      Known-then (Known-moved next.current_state (Reach-Known p) i) (Quiet-Same e q)

  Reach-Walk : {s t : Sys W} → Reach e s t → Walk e.wf s.task.current_state t.task.current_state
  Reach-Walk (quiet p) = subst (Walk e.wf _) (sym (Quiet-Same e p).state) stands
  Reach-Walk (moves d row next p r i m l q) =
      subst (Walk e.wf _) (sym (Quiet-Same e q).state) (steps (Reach-Walk p) m)

  -- Merges.
  Quiet-merges :
      {s t : Sys W}
      → dry_run_enabled e.wf.policies ≡ true
      → Quiet e s t
      → merges t.trace ≡ merges s.trace
  Quiet-merges dry stay = refl
  Quiet-merges dry (calls {t} c w q may) = no_merge e t.task c t.trace dry may ∙ Quiet-merges dry q
  Quiet-merges dry (adjusts u q m) = Quiet-merges dry q
  Quiet-merges dry (saves d q m) = Quiet-merges dry q
  Quiet-merges dry (notes d row q r m) = Quiet-merges dry q

  Reach-merges :
      {s t : Sys W}
      → dry_run_enabled e.wf.policies ≡ true
      → Reach e s t
      → merges t.trace ≡ merges s.trace
  Reach-merges dry (quiet p) = Quiet-merges dry p
  Reach-merges dry (moves d row next p r i m l q) = Quiet-merges dry q ∙ Reach-merges dry p

  -- The chain.
  Quiet-Told : {s t : Sys W} → Quiet e s t → Told s.task s.store → Told t.task t.store
  Quiet-Told stay h = h
  Quiet-Told (calls c w q may) h = Quiet-Told q h
  Quiet-Told (adjusts {t} u q m) h = Told-Same t.task u t.store m (Quiet-Told q h)
  Quiet-Told (saves {t} d q m) h =
      subst (Chained t.task.id t.task.current_state) (sym (update_task-log t.task t.store d m))
        (Quiet-Told q h)
  Quiet-Told (notes {t} d row q r m) h =
      told_row t.task.id t.task.current_state t.task.current_state row t.store.log d.log r m.log
        (Quiet-Told q h)

  Reach-Told : {s t : Sys W} → Reach e s t → Told s.task s.store → Told t.task t.store
  Reach-Told (quiet p) h = Quiet-Told p h
  Reach-Told (moves {t} d row next p r i m l q) h = Quiet-Told q (
      subst (λ id. Chained id next.current_state d.log) (sym i.id)
        (told_row t.task.id t.task.current_state next.current_state row t.store.log d.log r l.log
          (Reach-Told p h)))

  -- Other tasks.
  Quiet-others :
      {s t : Sys W} (id : String)
      → id ≢ s.task.id
      → Quiet e s t
      → get_task id t.store ≡ get_task id s.store
  unfolding get_task
  Quiet-others id ne stay = refl
  Quiet-others id ne (calls c w q may) = Quiet-others id ne q
  Quiet-others id ne (adjusts u q m) = Quiet-others id ne q
  Quiet-others id ne (saves {t} d q m) =
      update_task-get_task_ne t.task t.store d id (subst (λ i. id ≢ i) (sym (Quiet-Same e q).id) ne)
        m
      ∙ Quiet-others id ne q
  Quiet-others id ne (notes d row q r m) = rw (m.tasks, get_task) (Quiet-others id ne q)

  Reach-others :
      {s t : Sys W} (id : String)
      → id ≢ s.task.id
      → Reach e s t
      → get_task id t.store ≡ get_task id s.store
  unfolding get_task
  Reach-others id ne (quiet p) = Quiet-others id ne p
  Reach-others id ne (moves d row next p r i m l q) =
      Quiet-others id (subst (λ j. id ≢ j) (sym (i.id ∙ (Reach-Known p).id)) ne) q
      ∙ rw (l.tasks, get_task) (Reach-others id ne p)

module _ {W : Type 0} (ext : World W) (e : Engine) (rounds : ℕ) (s : Sys W) where
  abbrev after : Sys W
  after = (drive ext e rounds s).1

  -- Whatever the world answers and however many rounds are given, a drive takes the task from state
  -- to state along declared edges only: a transition's target or branch, the target that a bound
  -- escalates to, or the cancel state.
  pub drive-Walk : Walk e.wf s.task.current_state after.task.current_state
  drive-Walk = Reach-Walk e (drive-Reach ext e rounds s)

  -- With dry_run on, a drive makes no call that merges a pull request.
  pub drive-dry_run : dry_run_enabled e.wf.policies ≡ true → merges after.trace ≡ merges s.trace
  drive-dry_run dry = Reach-merges e dry (drive-Reach ext e rounds s)

  -- When the audit log tells an unbroken chain of states that ends in the task's state, it does so
  -- after the drive: no state is entered without its row, and no row names a state that is not left.
  pub drive-Chained :
      Chained s.task.id s.task.current_state s.store.log
      → Chained after.task.id after.task.current_state after.store.log
  drive-Chained h = Reach-Told e (drive-Reach ext e rounds s) h

  -- A drive never changes the stored row of another task.
  pub drive-others : (id : String) → id ≢ s.task.id → get_task id after.store ≡ get_task id s.store
  drive-others id ne = Reach-others e id ne (drive-Reach ext e rounds s)

  -- A drive never changes the id, the issue, the branch or the workflow snapshot of its task.
  pub drive-Known : Known s.task after.task
  drive-Known = Reach-Known e (drive-Reach ext e rounds s)
