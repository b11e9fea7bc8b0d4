-- ===== src/Engine/Executable.antt =====
-- internal/engine/executable.go: whether the interpreter can make progress in each state.
use hounds_ciai.Prelude.{
  String, Bool, true, false, not, ◌&&◌, ◌||◌, ◌≡◌, refl, ap, Option, none, some, List, [], ◌∷◌,
  ◌==◌, string_eq, if◌then◌else◌, contains, contains-In, In, here, there, Bool-cases, ◌⊎◌, inl, inr,
  arith, ==_true, ==_false, ◌≢◌,
}
use hounds_ciai.Prelude.Maps.{keys}
use hounds_ciai.Prelude.Sorting.{sort_strings-In}
use hounds_ciai.Config.Types.{Workflow, State, Entry, Transition, state_of, sorted_keys}
use hounds_ciai.Engine.Lookup.{auto_fired_events, runs_agent, state_has_agent}

-- An entry action that no agent shadows.
unfoldable pub acts : State → Bool
acts st =
    elim st.entry [ none ↦ false | some en ↦ not (en.action == "") ] && not (state_has_agent st)

-- One round of the loop over the transitions.
unfoldable pub progresses : Bool → Transition → Bool
progresses has_agent t =
    if t.when.event == "status.changed"
    then true
    else if t.when.event == "agent.done"
    then has_agent
    else contains auto_fired_events t.when.event

unfoldable pub some_progresses : Bool → List Transition → Bool
unfolding progresses
some_progresses has_agent [] = false
some_progresses has_agent (t ∷ ts) = progresses has_agent t || some_progresses has_agent ts

-- `drivable`.
unfoldable pub drivable : State → Bool
unfolding acts some_progresses
drivable st = acts st || some_progresses (state_has_agent st) st.transitions

-- `CheckExecutable`: the names that it complains of, in order.
unfoldable pub stuck_states : Workflow → List String → List String
stuck_states wf [] = []
stuck_states wf (n ∷ ns) =
    let rest = stuck_states wf ns in
    if not ((state_of wf n).terminal == "") || drivable (state_of wf n) then rest else n ∷ rest

unfoldable pub check_executable : Workflow → List String
unfolding stuck_states
check_executable wf = stuck_states wf (sorted_keys wf.states)

-- A transition that the state can go by: on a status, on an auto-fired event, or on its own agent.
pub data Progress (st : State) : Type 0 where
  by_status : (t : Transition) → In t st.transitions → t.when.event ≡ "status.changed" → Progress st
  by_event :
      (t : Transition) → In t st.transitions → In t.when.event auto_fired_events → Progress st
  by_agent :
      (t : Transition)
      → In t st.transitions
      → t.when.event ≡ "agent.done"
      → state_has_agent st ≡ true
      → Progress st

Progress-of :
    (st : State) (t : Transition)
    → In t st.transitions
    → progresses (state_has_agent st) t ≡ true
    → Progress st
unfolding progresses
Progress-of st t m = elim (Bool-cases (t.when.event == "status.changed")) [
  | inl a ↦ λ h. by_status t m (==_true t.when.event "status.changed" a)
  | inr a ↦ elim (Bool-cases (t.when.event == "agent.done")) [
    | inl b ↦ rw (a, b) λ h. by_agent t m (==_true t.when.event "agent.done" b) h
    | inr b ↦ rw (a, b) λ h. by_event t m (contains-In auto_fired_events t.when.event h)
  ]
]

some_progresses-Progress :
    (st : State) (ts : List Transition)
    → ((t : Transition) → In t ts → In t st.transitions)
    → some_progresses (state_has_agent st) ts ≡ true
    → Progress st
unfolding some_progresses
some_progresses-Progress st [] sub = λ h. cc
some_progresses-Progress st (t ∷ ts) sub = elim (Bool-cases (progresses (state_has_agent st) t)) [
  | inl a ↦ λ h. Progress-of st t (sub t here) a
  | inr a ↦ rw a λ h. some_progresses-Progress st ts (λ u m. sub u (there m)) h
]

-- An entry that acts, and spawns and resumes no agent.
pub record Unshadowed (st : State) : Type 0 where
  pub entry : Entry
  pub entered : st.entry ≡ some entry
  pub acts_ : entry.action ≢ ""
  pub spawns_none : entry.spawn ≡ ""
  pub resumes_none : entry.resume ≡ ""

none_run : (en : Entry) → runs_agent en ≡ false → (en.spawn ≡ "") × (en.resume ≡ "")
none_run en h =
    let s : (en.spawn == "") ≡ true = ground (arith, h) in
    let r : (en.resume == "") ≡ true = ground (arith, h) in
    (==_true en.spawn "" s, ==_true en.resume "" r)

acts-Unshadowed : (st : State) → acts st ≡ true → Unshadowed st
unfolding acts state_has_agent
acts-Unshadowed st h = go st.entry refl h
  where
    go :
        (o : Option Entry)
        → st.entry ≡ o
        → (elim o [ none ↦ false | some en ↦ not (en.action == "") ]
            && not (elim o [ none ↦ false | some en ↦ runs_agent en ]))
          ≡ true
        → Unshadowed st
    go none e k = cc
    go (some en) e k =
        let names : (en.action == "") ≡ false = ground (arith, k) in
        let (no_spawn, no_resume) = none_run en (ground (arith, k)) in
        record {
          entry = en;
          entered = e;
          acts_ = ==_false en.action "" names;
          spawns_none = no_spawn;
          resumes_none = no_resume;
        }

not_stuck :
    (wf : Workflow) (name : String) (ns : List String)
    → In name ns
    → stuck_states wf ns ≡ []
    → (state_of wf name).terminal ≡ ""
    → drivable (state_of wf name) ≡ true
unfolding stuck_states
not_stuck wf name [] m h z = elim m [ ]
not_stuck wf name (_ ∷ ns) here h z =
    let t : ((state_of wf name).terminal == "") ≡ true = ap (λ s. s == "") z in ground (arith, h, t)
not_stuck wf name (n ∷ ns) (there m) h z = not_stuck wf name ns m (ground (arith, h)) z

-- In a workflow that the check accepts, each declared state without a terminal verdict has an entry
-- with an action that neither spawns nor resumes an agent, or a transition on a status change, on an auto-fired event, or, with
-- an agent of its own, on the agent's being done.
pub check_executable_lem :
    (wf : Workflow) (name : String)
    → In name (keys wf.states)
    → check_executable wf ≡ []
    → (state_of wf name).terminal ≡ ""
    → Unshadowed (state_of wf name) ⊎ Progress (state_of wf name)
unfolding check_executable drivable
check_executable_lem wf name m h z =
    let d = not_stuck wf name (sorted_keys wf.states) (sort_strings-In (keys wf.states) m) h z in
    elim (Bool-cases (acts (state_of wf name))) [
      | inl a ↦ inl (acts-Unshadowed (state_of wf name) a)
      | inr a ↦ inr (
          some_progresses-Progress (state_of wf name) (state_of wf name).transitions (λ u i. i)
            (ground (arith, a, d)))
    ]
