-- ===== src/Config/Types.antt =====
-- internal/config/types.go: a decoded workflow and the accessors that the validator and the engine
-- share. A map is an association list, a pointer an `Option`, and an absent string the empty text.
-- Integers that the schema bounds from below (counts, caps, versions) are natural numbers.
use hounds_ciai.Prelude.{
  ℕ, String, Bool, true, false, not, Option, none, some, List, [], ◌∷◌, ◌==◌, string_eq,
  if◌then◌else◌, is_nonempty, any,
}
use hounds_ciai.Prelude.Maps.{lookup, keys}
use hounds_ciai.Prelude.Sorting.{sort_strings}

-- A gate reference is one or more gate names.
abbrev pub GateRef : Type 0
GateRef = List String

pub record Trigger : Type 0 where
  pub event : String
  pub timeout : String
  pub decision : String
  pub gate : GateRef

pub record Evaluate : Type 0 where
  pub decision : String
  pub gate : GateRef

pub record Action : Type 0 where
  pub alert : String

pub record Transition : Type 0 where
  pub when : Trigger
  pub evaluate : Option Evaluate
  pub to : String
  pub branch : List (String × String)
  pub action : Option Action

pub record Entry : Type 0 where
  pub spawn : String
  pub resume : String
  pub with_ : String
  pub action : String

pub record State : Type 0 where
  pub entry : Option Entry
  pub transitions : List Transition
  pub terminal : String
  pub wait_for : String
  pub alert : Bool

pub record DecisionImpl : Type 0 where
  pub type : String
  pub rubric : String
  pub command : List String

pub record Decision : Type 0 where
  pub impl : DecisionImpl
  pub verdicts : List String

pub record Gate : Type 0 where
  pub type : String
  pub head : String
  pub all_passing : Bool
  pub min_approved : ℕ
  pub require : String
  pub since : String

pub record Role : Type 0 where
  pub launch : List String
  pub task_delivery : String
  pub workspace : String
  pub kickoff : String
  pub allowed_tools : List String

-- A value under `select`: only a text under the key `label` is ever read.
pub data SelectValue : Type 0 where
  text : String → SelectValue
  other : SelectValue

pub record Source : Type 0 where
  pub id : String
  pub type : String
  pub repo : String
  pub select : List (String × SelectValue)
  pub emits_to : String

pub record Execution : Type 0 where
  pub backend : String
  pub run_as : String
  pub sandbox : Bool

pub record Policies : Type 0 where
  pub max_concurrent_tasks : ℕ
  pub dry_run : Option Bool
  pub circuit_breaker : Bool
  pub retry_caps : List (String × ℕ)
  pub blocked_timeout : String
  pub drive_deadline : String
  pub no_progress_timeout : String
  pub execution : Execution

pub record Workflow : Type 0 where
  pub version : ℕ
  pub name : String
  pub entry_state : Option String
  pub policies : Policies
  pub sources : List Source
  pub roles : List (String × Role)
  pub gates : List (String × Gate)
  pub decisions : List (String × Decision)
  pub states : List (String × State)

-- The zero values that an index into a map yields for a missing key.
abbrev pub no_state : State
no_state = record { entry = none; transitions = []; terminal = ""; wait_for = ""; alert = false }

abbrev pub no_decision : Decision
no_decision = record { impl = record { type = ""; rubric = ""; command = [] }; verdicts = [] }

abbrev pub no_gate : Gate
no_gate = record {
  type = "";
  head = "";
  all_passing = false;
  min_approved = 0;
  require = "";
  since = "";
}

abbrev or_zero {ℓ} : {A : Type ℓ} → Option A → A → A
or_zero none z = z
or_zero (some a) z = a

-- `wf.States[name]`, `wf.Decisions[name]` and `wf.Gates[name]`.
unfoldable pub state_of : Workflow → String → State
state_of wf name = or_zero (lookup name wf.states) no_state

unfoldable pub decision_of : Workflow → String → Decision
decision_of wf name = or_zero (lookup name wf.decisions) no_decision

unfoldable pub gate_of : Workflow → String → Gate
gate_of wf name = or_zero (lookup name wf.gates) no_gate

-- `sortedKeys` of helpers.go.
abbrev pub sorted_keys {ℓ} : {V : Type ℓ} → List (String × V) → List String
sorted_keys m = sort_strings (keys m)

-- `Trigger.IsTimeout`.
unfoldable pub is_timeout : Trigger → Bool
is_timeout t = not (t.timeout == "")

-- `Policies.DryRunEnabled`: on unless the policy says false.
unfoldable pub dry_run_enabled : Policies → Bool
dry_run_enabled p = elim p.dry_run [ none ↦ true | some b ↦ b ]

-- `Transition.DecisionRef`: the trigger's decision, else the evaluation's.
unfoldable pub decision_ref : Transition → String
decision_ref t =
    if not (t.when.decision == "")
    then t.when.decision
    else elim t.evaluate [ none ↦ "" | some ev ↦ ev.decision ]

-- `Transition.GateRefs`.
unfoldable pub gate_refs : Transition → List String
gate_refs t =
    if is_nonempty t.when.gate
    then t.when.gate
    else elim t.evaluate [ none ↦ [] | some ev ↦ ev.gate ]

-- `branchValues`.
abbrev pub branch_values : List (String × String) → List String
branch_values [] = []
branch_values ((k, v) ∷ b) = v ∷ branch_values b

-- `Transition.Targets`: `to` if set, otherwise the branch values.
unfoldable pub targets : Transition → List String
targets t = if not (t.to == "") then t.to ∷ [] else branch_values t.branch

-- `State.HasTimeoutTransition`.
unfoldable pub has_timeout_transition : State → Bool
unfolding is_timeout
has_timeout_transition s = any (λ t. is_timeout t.when) s.transitions

select_label : Option SelectValue → String
select_label (some (text l)) = l
select_label _ = ""

source_label_of : List Source → String
unfolding select_label
source_label_of [] = ""
source_label_of (s ∷ ss) =
    let rest = source_label_of ss in
    if s.type == "github_issues"
    then (let l = select_label (lookup "label" s.select) in if not (l == "") then l else rest)
    else rest

-- `Workflow.SourceLabel`: the label of the first github_issues source that has one.
unfoldable pub source_label : Workflow → String
unfolding source_label_of
source_label wf = source_label_of wf.sources
