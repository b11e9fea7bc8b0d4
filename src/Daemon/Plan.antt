-- ===== src/Daemon/Plan.antt =====
-- cmd/orchestratord/main.go, the cycles of writePlan against the validator.
use hounds_ciai.Prelude.{
  arith, ◌∷◌, String, Bool, true, false, not, ◌&&◌, ◌≡◌, refl, ◌∙◌, ap, List, [], In, In-note,
  In-gather, gather-nil, note-nil,
}
use hounds_ciai.Prelude.Sorting.{sort_strings}
use hounds_ciai.Config.Types.{Workflow}
use hounds_ciai.Config.Graph.{build_graph}
use hounds_ciai.Config.Validate.Messages.{unbounded_cycle}
use hounds_ciai.Config.Validate.Bounds.{
  components, is_cyclic, is_capped, check_component, check_loops_terminate,
}
use hounds_ciai.Config.Validate.Accepted.{Accepted, parts}
use hounds_ciai.Daemon.{CycleRow, cycle_bounded, cycle_rows, plan_cycles}

and_not : (a b : Bool) → a ≡ true → (a && not b) ≡ false → b ≡ true
and_not true true p h = refl
and_not true false p h = cc
and_not false b p h = cc

-- The plan's test of a cycle is the validator's.
cycle_bounded-is_capped :
    (wf : Workflow) (comp : List String) → cycle_bounded wf comp ≡ is_capped wf comp
unfolding cycle_bounded is_capped
cycle_bounded-is_capped wf [] = refl
cycle_bounded-is_capped wf (n ∷ ns) = ground (arith, cycle_bounded-is_capped wf ns)

cycle_rows-capped :
    (wf : Workflow) (comp : List String) (r : CycleRow)
    → check_component wf comp ≡ []
    → In r (cycle_rows wf comp)
    → r.capped ≡ true
unfolding check_component cycle_rows
cycle_rows-capped wf comp r clean m =
    let off =
      note-nil (is_cyclic (build_graph wf) comp && not (is_capped wf comp))
        (unbounded_cycle (sort_strings comp)) clean in
    let (cyclic, row) = In-note (is_cyclic (build_graph wf) comp) _ m in
    ap (λ (q : CycleRow). q.capped) row
    ∙ (cycle_bounded-is_capped wf comp
        ∙ and_not (is_cyclic (build_graph wf) comp) (is_capped wf comp) cyclic off)

-- The plan of a workflow that the validator accepts shows no cycle as uncapped.
pub plan_cycles-capped :
    (wf : Workflow) (r : CycleRow) → Accepted wf → In r (plan_cycles wf) → r.capped ≡ true
unfolding plan_cycles check_loops_terminate
plan_cycles-capped wf r accepted m =
    let (comp, i, j) = In-gather (cycle_rows wf) (components (build_graph wf)) m in
    cycle_rows-capped wf comp r
      (gather-nil (check_component wf) (components (build_graph wf)) (parts wf accepted).loops i) j
