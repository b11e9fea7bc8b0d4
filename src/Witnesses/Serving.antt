-- ===== src/Witnesses/Serving.antt =====
-- The theorems on the daemon and the control server, at concrete data.
use hounds_ciai.Prelude.{
  ℕ, List, Option, true, ◌≡◌, ◌||◌, ◌&&◌, refl, none, some, [], ◌∷◌, contains, string_eq,
}
use hounds_ciai.Prelude.{In, In-cons, ==_false, ◌==◌, if◌then◌else◌, is_nonempty, map, inl, inr}
use hounds_ciai.Result.{ok}
use hounds_ciai.Store.Columns.{Codec, Keeps, KeepsTime, row_of, select_task, update_sql}
use hounds_ciai.Store.Columns.Refines.{columns_refine}
use hounds_ciai.Config.Types.{dry_run_enabled, state_of}
use hounds_ciai.Store.{Task, Store, get_task, update_rows}
use hounds_ciai.Engine.Lookup.{is_settled, is_terminal}
use hounds_ciai.Engine.Naming.{task_id, decimal}
use hounds_ciai.Scheduler.{Sched, already_settled, enqueue_one}
use hounds_ciai.Daemon.{settled_states, merges_pr, done_check}
use hounds_ciai.Daemon.Settled.{settled_states_lem, enqueue_one-settled}
use hounds_ciai.Control.{Handler, CallParams, number}
use hounds_ciai.Control.Server.{Request, handle_http}
use hounds_ciai.Control.Server.Requests.{Leaves, Answered, handle_http-Answered}
use hounds_ciai.Samples.{engine, task, store}

abbrev merging_task : Task
merging_task = record task { current_state = "merging" }

abbrev halted : Store
halted = record store { tasks = merging_task ∷ [] }

abbrev idle_sched : Sched
idle_sched = record { queue = []; running = []; inflight = []; cancelled = []; next_context = 0 }

settled_states_example : contains (settled_states (engine true).wf) "merging" ≡ (
    is_settled (engine true) "merging"
    || (dry_run_enabled (engine true).wf.policies
        && merges_pr (state_of (engine true).wf "merging")))
settled_states_example = settled_states_lem (engine true) "merging"

finds : get_task (task_id 7) halted ≡ ok merging_task
unfolding get_task task_id decimal
finds = refl

waits_merged :
    (is_settled (engine true) "merging"
      || (dry_run_enabled (engine true).wf.policies
          && merges_pr (state_of (engine true).wf "merging")))
    ≡ true
unfolding is_settled is_terminal dry_run_enabled state_of
waits_merged = refl

enqueue_one-settled_example :
    (enqueue_one
        (some (λ i. (done_check (settled_states (engine true).wf) halted i).0))
        7
        idle_sched
      ≡ (some already_settled, idle_sched))
    × ((done_check (settled_states (engine true).wf) halted 7).1 ≡ true)
enqueue_one-settled_example =
    enqueue_one-settled (engine true) halted 7 merging_task idle_sched finds waits_merged refl

abbrev handler : Handler
handler = record {
  deadlines = none;
  check = some (λ i. (done_check (settled_states (engine true).wf) halted i).0);
  now = 5000000000;
  store = halted;
  reads = true;
}

abbrev asks : CallParams
asks = record { name = "enqueue_task"; issue = number 7 }

-- A codec for the few values of the sample store.
abbrev codec : Codec
codec = record {
  format = decimal;
  parse_time = λ s. if s == "1" then some 1 else if s == "0" then some 0 else none;
  encode = λ m. if is_nonempty m then "{}" else "null";
  decode_counts = λ s. if s == "null" then some [] else none;
}

KeepsTime-zero : KeepsTime codec 0
unfolding decimal
KeepsTime-zero = record { back = refl; visible = ==_false "0" "" refl }

KeepsTime-one : KeepsTime codec 1
unfolding decimal
KeepsTime-one = record { back = refl; visible = ==_false "1" "" refl }

keeps : (u : Task) → In u halted.tasks → Keeps codec u
keeps u i = elim (In-cons i) [
  | inl e ↦ rw e (record {
    created = KeepsTime-one;
    updated = KeepsTime-one;
    observed = KeepsTime-zero;
    entered = KeepsTime-zero;
    counts = refl;
  })
  | inr j ↦ elim j [ ]
]

columns_refine_example :
    (select_task codec "issue-7" (map (row_of codec) halted.tasks) ≡ get_task "issue-7" halted)
    × (update_sql codec task (map (row_of codec) halted.tasks)
        ≡ map (row_of codec) (update_rows task halted.tasks))
columns_refine_example = columns_refine codec halted task "issue-7" keeps

-- A request that reads as a call of `enqueue_task`.
abbrev decodes : List ℕ → Option Request
decodes [] = none
decodes (b ∷ bs) = some (record { id = "1"; method = "tools/call"; params = "{}" })

handle_http-Answered_example :
    Leaves handler decodes
      (λ t. some asks)
      "POST"
      (some (0 ∷ []))
      idle_sched
      (handle_http handler (λ t. some asks) decodes "POST" (some (0 ∷ [])) idle_sched).1
    × Answered handler decodes
        (λ t. some asks)
        "POST"
        (some (0 ∷ []))
        (handle_http handler (λ t. some asks) decodes "POST" (some (0 ∷ [])) idle_sched).0
handle_http-Answered_example =
    handle_http-Answered handler decodes (λ t. some asks) "POST" (some (0 ∷ [])) idle_sched
