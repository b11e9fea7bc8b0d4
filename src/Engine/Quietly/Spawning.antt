-- ===== src/Engine/Quietly/Spawning.antt =====
-- The lemmas on spawning an agent and on the retry cap.
use hounds_ciai.Prelude.{ℕ, String, true, ◌≡◌, refl, Option, none, some, string_eq, In}
use hounds_ciai.Result.{Result, ok, err}
use hounds_ciai.Store.{Task}
use hounds_ciai.Engine.Steps.{Same}
use hounds_ciai.Engine.Runs.{
  Same-trans, Same-sym, Runs, Runs-pure, Runs-raise, Runs-from_result, Runs-if, Runs-set_task,
  Runs-read, Runs-next, Runs-ask, Runs-ok, Runs-some, Runs-done,
}
use hounds_ciai.Config.Types.{Role, State, Entry, Transition}
use hounds_ciai.Engine.Monad.{
  World, Engine, M, attached, TaskFile, fetch_issue, resolve, spawn_agent, read_rubric, write_file,
  remove_verdict, read_verdict, from_result, set_task,
}
use hounds_ciai.Engine.Spawning.{
  launch_args, kickoff_text, has_pr, load_rubric, write, clear_verdict, reviewer_task, triage_task,
  read_feedback, feedback_task, issue_task, decision_task, work_task, agent_task, spawn_fresh,
  reuse, try_reuse, spawn, count_retry, bump_retry, check_retry_cap,
}
use hounds_ciai.Engine.Quietly.Writes.{Runs-persist}
use hounds_ciai.Engine.Quietly.Leads.{find_event-In}

module _ {W : Type 0} (ext : World W) (e : Engine) (o : Task) where
  abbrev Still : {A : Type 0} → M W A → Type 0
  Still m = Runs {W = W} e (Same o) (λ _. Unit {0}) m

  pub given : {A : Type 0} (r : Result A) → Still (from_result r)
  given (ok a) = Runs-from_result e (ok a) tt
  given (err x) = Runs-from_result e (err x) tt

  load_rubric_quiet : (rel : String) → Still (load_rubric ext rel)
  unfolding load_rubric
  load_rubric_quiet rel =
      Runs-if e _ _ _ (λ _. Runs-raise e _)
        λ _. Runs-ask e ext (read_rubric rel) _ (λ _ _. tt) λ r. given r

  write_quiet : (f : TaskFile) → Still (write ext f)
  unfolding write
  write_quiet f = Runs-ask e ext (write_file f) _ (λ _ _. tt) λ r. given r

  clear_verdict_quiet : (task : Task) → Still (clear_verdict ext task)
  unfolding clear_verdict
  clear_verdict_quiet task = Runs-ask e ext (remove_verdict task.id) _ (λ _ _. tt) λ r. given r

  reviewer_task_quiet : (task : Task) (name : String) → Still (reviewer_task ext e task name)
  unfolding reviewer_task
  reviewer_task_quiet task name = Runs-next e _ _ (load_rubric_quiet _) λ rubric.
      Runs-next e _ _ (write_quiet _)
        λ _. Runs-next e _ _ (clear_verdict_quiet task) λ _. Runs-pure e _ tt

  triage_task_quiet : (task : Task) (name : String) → Still (triage_task ext e task name)
  unfolding triage_task
  triage_task_quiet task name = Runs-next e _ _ (load_rubric_quiet _) λ rubric.
      Runs-ask e ext (fetch_issue task.issue) _ (λ _ _. tt)
        λ r. Runs-ok e r _ λ issue.
          Runs-next e _ _ (write_quiet _)
            λ _. Runs-next e _ _ (clear_verdict_quiet task) λ _. Runs-pure e _ tt

  feedback_task_quiet : (task : Task) (with_ : String) → Still (feedback_task ext task with_)
  unfolding feedback_task read_feedback
  feedback_task_quiet task with_ =
      Runs-next e _ _
        (Runs-if e _ _ _
          (λ _. Runs-ask e ext (read_verdict task.id) _ (λ _ _. tt) λ r. Runs-pure e _ tt)
          (λ _. Runs-pure e _ tt))
        λ feedback. Runs-next e _ _ (write_quiet _) λ _. Runs-pure e _ tt

  issue_task_quiet : (r : Role) (task : Task) → Still (issue_task ext r task)
  unfolding issue_task
  issue_task_quiet r task =
      Runs-ask e ext (fetch_issue task.issue) _ (λ _ _. tt)
        λ reply. Runs-ok e reply _ λ issue. Runs-next e _ _ (write_quiet _) λ _. Runs-pure e _ tt

  decision_task_quiet :
      (task : Task) (dec : String) (n : Option ℕ) → Still (decision_task ext e task dec n)
  unfolding decision_task
  decision_task_quiet task dec none = triage_task_quiet task dec
  decision_task_quiet task dec (some n) = reviewer_task_quiet task dec

  work_task_quiet : (task : Task) (r : Role) (en : Option Entry) → Still (work_task ext task r en)
  unfolding work_task
  work_task_quiet task r none = issue_task_quiet r task
  work_task_quiet task r (some en) =
      Runs-if e _ _ _ (λ _. feedback_task_quiet task _) (λ _. issue_task_quiet r task)

  agent_task_quiet : (task : Task) (st : State) (r : Role) → Still (agent_task ext e task st r)
  unfolding agent_task
  agent_task_quiet task st r =
      Runs-if e _ _ _ (λ _. decision_task_quiet task _ _) (λ _. work_task_quiet task r _)

module _ {W : Type 0} (ext : World W) (e : Engine) (o : Task) where
  -- A change of the fields by which the task is not known.
  pub Runs-adjust : (u : Task) → Same o u → Runs {W = W} e (Same o) (λ _. Unit {0}) (set_task u)
  Runs-adjust u h = Runs-set_task e u h (λ t i. Same-trans (Same-sym i) h)

  spawn_fresh_quiet :
      (role : String) (st : State)
      → Runs {W = W} e (Same o) (λ _. Unit {0}) (spawn_fresh ext e role st)
  unfolding spawn_fresh
  spawn_fresh_quiet role st = Runs-some e _ _ _ λ r _. Runs-read e _ λ task _.
      Runs-next e _ _ (agent_task_quiet ext e o task st r) λ kickoff.
        Runs-ask e ext
          (spawn_agent (record {
            task_id = task.id;
            role = role;
            branch = task.branch;
            repo_dir = e.repo;
            base = e.base;
            launch = launch_args e.base_name r;
            kickoff = kickoff_text kickoff;
            preserve_branch = has_pr task.pr_number;
          }))
          _ (λ _ _. tt)
          λ reply. Runs-ok e reply _ λ pane. Runs-read e _ λ task' h.
            Runs-next e _ _
              (Runs-adjust _ (record {
                id = h.id;
                issue = h.issue;
                branch = h.branch;
                snapshot = h.snapshot;
                state = h.state;
              }))
              λ _. Runs-persist ext e o attached

  reuse_quiet :
      (task : Task) (p : Option String)
      → Same o task
      → Runs {W = W} e (Same o) (λ _. Unit {0}) (reuse ext task p)
  unfolding reuse
  reuse_quiet task none h = Runs-pure e _ tt
  reuse_quiet task (some pane) h =
      Runs-done e _ true
        (Runs-adjust (record task { pane_id = pane })
          (record {
            id = h.id;
            issue = h.issue;
            branch = h.branch;
            snapshot = h.snapshot;
            state = h.state;
          }))
        tt

  pub Runs-spawn :
      (role : String) (st : State) → Runs {W = W} e (Same o) (λ _. Unit {0}) (spawn ext e role st)
  unfolding spawn try_reuse
  Runs-spawn role st =
      Runs-next e _ _
        (Runs-read e _ λ task h.
          Runs-if e _ _ _
            (λ _.
              Runs-ask e ext (resolve task.id) _ (λ _ _. tt)
                λ r. Runs-ok e r _ λ p. reuse_quiet task p h)
            (λ _. Runs-pure e _ tt))
        λ reused. Runs-if e reused _ _ (λ _. Runs-pure e _ tt) (λ _. spawn_fresh_quiet role st)

  -- Where an exhausted cap sends the task.
  abbrev pub Escapes : State → Option String → Type 0
  Escapes st none = Unit
  Escapes st (some target) = (t : Transition) × In t st.transitions × (t.to ≡ target)

  count_retry-Escapes :
      (st : State) (limit count : ℕ)
      → Runs {W = W} e (Same o) (Escapes st) (count_retry ext st limit count)
  unfolding count_retry
  count_retry-Escapes st limit count =
      Runs-if e _ _ _ (λ _. Runs-pure e _ tt)
        λ _.
          Runs-some e _ _ _ λ t h. Runs-pure e _ (t, find_event-In st "retry_exhausted" t h, refl)

  bump_retry-Escapes :
      (st : State) (cap : Option ℕ) → Runs {W = W} e (Same o) (Escapes st) (bump_retry ext st cap)
  unfolding bump_retry
  bump_retry-Escapes st none = Runs-pure e _ tt
  bump_retry-Escapes st (some limit) = Runs-read e _ λ task h.
      Runs-next e _ _
        (Runs-adjust _ (record {
          id = h.id;
          issue = h.issue;
          branch = h.branch;
          snapshot = h.snapshot;
          state = h.state;
        }))
        λ _. count_retry-Escapes st limit _

  pub Runs-check_retry_cap :
      (st : State) → Runs {W = W} e (Same o) (Escapes st) (check_retry_cap ext e st)
  unfolding check_retry_cap
  Runs-check_retry_cap st = Runs-read e _ λ task h. bump_retry-Escapes st _
