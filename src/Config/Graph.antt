-- ===== src/Config/Graph.antt =====
-- internal/config/graph.go, and the search of validate.go: the transition graph of a workflow, its
-- strongly connected components by Tarjan's algorithm, and the states that a search reaches. A Go
-- stack is a list with its top first. Both searches run on fuel; `none` is a search that ran out of
-- it, or an index out of range.
pub mod Reaching
pub mod Components
use hounds_ciai.Prelude.{
  ℕ, zero, suc, ◌+◌, String, Bool, true, false, not, Option, none, some, List, [], ◌∷◌, ◌++◌, ◌==◌,
  nat_eq, string_eq, ltb, if◌then◌else◌, is_nonempty, length, contains, get_or, gather, note,
}
use hounds_ciai.Prelude.Maps.{lookup_or, has_key, insert, keys}
use hounds_ciai.Prelude.Sorting.{sort_strings}
use hounds_ciai.Config.Types.{Transition, State, Workflow, branch_values, state_of, sorted_keys}

abbrev pub Graph : Type 0
Graph = List (String × List String)

-- The edges of one transition; one that only acts has none.
unfoldable pub edges_of_transition : Transition → List String
edges_of_transition t =
    if not (t.to == "")
    then t.to ∷ []
    else if is_nonempty t.branch
    then sort_strings (branch_values t.branch)
    else []

unfoldable pub graph_over : Workflow → List String → Graph
unfolding edges_of_transition
graph_over wf [] = []
graph_over wf (n ∷ ns) =
    (n, gather edges_of_transition (state_of wf n).transitions) ∷ graph_over wf ns

-- `buildGraph`.
unfoldable pub build_graph : Workflow → Graph
unfolding graph_over
build_graph wf = graph_over wf (keys wf.states)

-- `graph[n]`, which is empty for a name that is not declared.
abbrev pub next : Graph → String → List String
next g n = lookup_or n [] g

-- The entry actions that change the repository.
abbrev pub side_effecting : String → Bool
side_effecting action = action == "merge_pr"

abbrev pub is_side_effecting : State → Bool
is_side_effecting s = elim s.entry [ none ↦ false | some e ↦ side_effecting e.action ]

-- The variables that `strong` shares.
pub record Tarjan : Type 0 where
  pub index : List (String × ℕ)
  pub low : List (String × ℕ)
  pub on_stack : List (String × Bool)
  pub stack : List String
  pub out : List (List String)
  pub counter : ℕ

unfoldable pub enter : String → Tarjan → Tarjan
enter v st = record st {
  index = insert v st.counter st.index;
  low = insert v st.counter st.low;
  counter = suc st.counter;
  stack = v ∷ st.stack;
  on_stack = insert v true st.on_stack;
}

-- `if x < low[v] { low[v] = x }`.
unfoldable pub lower : String → ℕ → Tarjan → Tarjan
lower v x st = record st {
  low = if ltb x (lookup_or v 0 st.low) then insert v x st.low else st.low;
}

-- One round of the loop over the edges of `v`.
unfoldable pub follow : (String → Tarjan → Option Tarjan) → String → String → Tarjan → Option Tarjan
unfolding lower
follow call v w st = elim (has_key w st.index) [
  | false ↦ get_or (call w st) none (λ st'. some (lower v (lookup_or w 0 st'.low) st'))
  | true ↦ some (if lookup_or w false st.on_stack then lower v (lookup_or w 0 st.index) st else st)
]

unfoldable pub follow_all :
    (String → Tarjan → Option Tarjan) → String → List String → Tarjan → Option Tarjan
unfolding follow
follow_all call v [] st = some st
follow_all call v (w ∷ ws) st = get_or (follow call v w st) none (follow_all call v ws)

-- The loop that pops a component.
unfoldable pub pop_until : String → List String → List String → Tarjan → Option Tarjan
pop_until v [] comp st = none
pop_until v (w ∷ stack) comp st =
    let st' = record st { stack = stack; on_stack = insert w false st.on_stack } in
    let more = pop_until v stack (comp ++ w ∷ []) st' in
    if w == v then some (record st' { out = st.out ++ (comp ++ w ∷ []) ∷ [] }) else more

unfoldable pub pop_component : String → Tarjan → Option Tarjan
unfolding pop_until
pop_component v st =
    if lookup_or v 0 st.low == lookup_or v 0 st.index then pop_until v st.stack [] st else some st

unfoldable pub strong : Graph → ℕ → String → Tarjan → Option Tarjan
unfolding enter follow_all pop_component
strong g zero v st = none
strong g (suc fuel) v st =
    get_or (follow_all (strong g fuel) v (next g v) (enter v st)) none (pop_component v)

unfoldable pub strong_all : Graph → ℕ → List String → Tarjan → Option Tarjan
unfolding strong
strong_all g fuel [] st = some st
strong_all g fuel (v ∷ vs) st =
    get_or (elim (has_key v st.index) [ true ↦ some st | false ↦ strong g fuel v st ]) none
      (strong_all g fuel vs)

abbrev pub unvisited : Tarjan
unvisited = record { index = []; low = []; on_stack = []; stack = []; out = []; counter = 0 }

-- `tarjanSCC`. A name is entered once, and only a declared one has edges to follow.
unfoldable pub tarjan_scc : Graph → Option (List (List String))
unfolding strong_all
tarjan_scc g =
    get_or (strong_all g (suc (length g)) (sorted_keys g) unvisited) none (λ st. some st.out)

-- The edges of all nodes.
unfoldable pub count_edges : Graph → ℕ
count_edges [] = 0
count_edges ((n, ts) ∷ g) = length ts + count_edges g

-- `append(stack, names...)`.
unfoldable pub push_all : List String → List String → List String
push_all [] stack = stack
push_all (x ∷ xs) stack = push_all xs (x ∷ stack)

-- The loop of `checkReachability`.
unfoldable pub search_from : Graph → ℕ → List String → List String → Option (List String)
unfolding push_all
search_from g fuel seen [] = some seen
search_from g zero seen (n ∷ stack) = none
search_from g (suc fuel) seen (n ∷ stack) =
    let again = contains seen n in
    search_from g fuel (if again then seen else n ∷ seen)
      (if again then stack else push_all (next g n) stack)

-- Each node's edges are pushed once, so a round is left for each name that is ever pushed.
unfoldable pub reached : Graph → String → Option (List String)
unfolding search_from count_edges
reached g entry = search_from g (suc (count_edges g)) [] (entry ∷ [])

-- `Analyze`.
pub record GraphAnalysis : Type 0 where
  pub edges : Graph
  pub sccs : Option (List (List String))
  pub terminal : List String
  pub side_effecting_states : List String

unfoldable pub analyze : Workflow → GraphAnalysis
unfolding build_graph tarjan_scc
analyze wf =
    let names = sorted_keys wf.states in
    let g = build_graph wf in
    record {
      edges = g;
      sccs = tarjan_scc g;
      terminal = gather (λ n. note (not ((state_of wf n).terminal == "")) n) names;
      side_effecting_states = gather (λ n. note (is_side_effecting (state_of wf n)) n) names;
    }
