-- ===== src/Engine/Laws/GateRuns.antt =====
-- Runs over a list of gates, with one snapshot of the pull request.
use hounds_ciai.Prelude.{
  String, Bool, true, not, ◌&&◌, ◌||◌, ◌≡◌, ◌≢◌, refl, sym, ◌∙◌, ap, none, some, List, [], ◌∷◌,
  ◌==◌, string_eq, if◌then◌else◌, leb, all, contains, contains-In, In, here, there, Bool-cases, inl,
  inr, ==_ne, arith,
}
use hounds_ciai.Prelude.Maps.{lookup, has_key}
use hounds_ciai.Result.{ok}
use hounds_ciai.Config.Types.{Gate, Workflow, gate_of}
use hounds_ciai.Store.{Task}
use hounds_ciai.Github.{PrStatus, checks_green}
use hounds_ciai.Engine.Monad.{
  World, Engine, Sys, branch, pure, raise, get_task, continue, or_raise, ◌>>=◌,
}
use hounds_ciai.Engine.Gates.{
  is_mergeable, commits_moved, gate_pass, need_status, decide_gate, gate_round, or_fail, eval_gates,
}

abbrev pub status_kinds : List String
status_kinds = "github_checks" ∷ "github_reviews" ∷ "github_commits" ∷ "github_mergeable" ∷ []

-- What a gate that reads the snapshot demands of it.
unfoldable pub holds : Task → PrStatus → Gate → Bool
holds task status g =
    if g.type == "github_checks"
    then checks_green status
    else if g.type == "github_reviews"
    then leb g.min_approved status.approved_reviews
    else if g.type == "github_commits"
    then task.state_entry_head == "" || not (status.head_sha == task.state_entry_head)
    else is_mergeable g status

-- The name is a declared gate that reads the snapshot.
abbrev pub reads_status : Workflow → String → Bool
reads_status wf name = has_key name wf.gates && contains status_kinds (gate_of wf name).type

module _ {W : Type 0} (ext : World W) (e : Engine) (status : PrStatus)
    (headed : status.head_sha ≢ "") where
  commits_lem :
      (s : Sys W)
      → commits_moved ext s.task status s ≡ (
        ok (s.task.state_entry_head == "" || not (status.head_sha == s.task.state_entry_head)),
        s,
      )
  unfolding commits_moved branch pure
  commits_lem s = elim (Bool-cases (s.task.state_entry_head == "")) [
    | inl h ↦ rw h refl
    | inr h ↦ rw (h, ==_ne status.head_sha "" headed) refl
  ]

  pass_lem :
      (kind : String)
      → In kind status_kinds
      → (g : Gate) → g.type ≡ kind
      → (s : Sys W) → gate_pass ext g status s ≡ (ok (holds s.task status g), s)
  unfolding gate_pass holds branch pure raise get_task ◌>>=◌ continue
  pass_lem _ here g h s = rw h refl
  pass_lem _ (there here) g h s = rw h refl
  pass_lem _ (there (there here)) g h s = rw h (commits_lem s)
  pass_lem _ (there (there (there here))) g h s = rw h refl
  pass_lem _ (there (there (there (there m)))) g h s = elim m [ ]

  known :
      (k : String) (m : List (String × Gate))
      → has_key k m ≡ true
      → (g : Gate) × (lookup k m ≡ some g)
  known k [] h = cc
  known k ((j, g) ∷ m) h = elim (Bool-cases (j == k)) [
    | inl e ↦ (g, rw e refl)
    | inr e ↦ let (g', p) = known k m (ground (arith, e)) in (g', rw e p)
  ]

  round_lem :
      (name : String) (s : Sys W)
      → reads_status e.wf name ≡ true
      → gate_round ext e name (some status) s
        ≡ (ok (if holds s.task status (gate_of e.wf name) then some (some status) else none), s)
  unfolding gate_round need_status decide_gate or_raise pure ◌>>=◌ continue gate_of
  round_lem name s r =
      let (g, p) = known name e.wf.gates (ground arith) in
      let is : gate_of e.wf name ≡ g = rw (gate_of, p) refl in
      let kind : contains status_kinds g.type ≡ true =
        ap (λ (g : Gate). contains status_kinds g.type) (sym is) ∙ ground arith in
      rw (p, pass_lem g.type (contains-In status_kinds g.type kind) g refl s) refl

  -- When every gate of a list is declared and reads the pull request's snapshot, and the snapshot has a
  -- head, the run over the list passes exactly when the snapshot satisfies each gate, and it changes
  -- nothing: it makes no further call.
  pub eval_gates-all :
      (names : List String) (s : Sys W)
      → all (reads_status e.wf) names ≡ true
      → eval_gates ext e names (some status) s ≡ (
        ok (if all (λ name. holds s.task status (gate_of e.wf name)) names then "pass" else "fail"),
        s,
      )
  unfolding eval_gates or_fail pure ◌>>=◌ continue
  eval_gates-all [] s h = refl
  eval_gates-all (name ∷ names) s h =
      let first = round_lem name s (ground arith) in
      let rest = eval_gates-all names s (ground arith) in
      elim (Bool-cases (holds s.task status (gate_of e.wf name))) [
        | inl p ↦ rw (first, p) rest
        | inr p ↦ rw (first, p) refl
      ]
