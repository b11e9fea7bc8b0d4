-- ===== src/Exec/Herdr/Readings.antt =====
-- internal/exec/herdr.go: what the methods compute from answers, and the shapes of their control flow.
use hounds_ciai.Prelude.{
  String, Bool, true, false, not, ◌&&◌, Option, none, some, List, [], ◌∷◌, ◌==◌, string_eq, nat_eq,
  if◌then◌else◌, find?,
}
use Prim.Native.String.{◌++◌ as text_append}
use hounds_ciai.Exec.{AgentState, working, done, unknown, agent_state_text, normalize_state}
use hounds_ciai.Exec.Hub.{PaneInfo}
use hounds_ciai.Exec.Herdr.Shell.{Herdr, Answer, good, bad, H, done_}

-- `worktreeDir`.
unfoldable pub worktree_dir : Herdr → String → String → String
worktree_dir h repo id =
    h.join (if h.worktrees_dir == "" then h.dir_of repo else h.worktrees_dir) (text_append "wt-" id)

-- `smokeLabel`.
abbrev pub smoke_label : String
smoke_label = "orchestratord-doctor"

-- `strings.Join(launch, " ")`.
unfoldable pub joined : List String → String
joined [] = ""
joined (x ∷ []) = x
joined (x ∷ y ∷ xs) = text_append x (text_append " " (joined (y ∷ xs)))

-- `workspaceByLabel`: the id of the first workspace with the label, or "".
unfoldable pub labelled : String → List (String × String) → String
labelled label [] = ""
labelled label ((id, l) ∷ ws) = let rest = labelled label ws in if l == label then id else rest

-- `workspaceForPane` and `currentStatus`: the first pane with the id.
unfoldable pub pane_with : String → List PaneInfo → Option PaneInfo
pane_with pane ps = find? (λ (p : PaneInfo). p.pane_id == pane) ps

unfoldable pub status_in : String → Answer (List PaneInfo) → AgentState
unfolding pane_with
status_in pane (bad f) = unknown
status_in pane (good ps) = elim (pane_with pane ps) [
  | none ↦ unknown
  | some p ↦ normalize_state p.agent_status
]

-- The evidence that `kickoffAccepted` takes: work, or any known change.
unfoldable pub moved : AgentState → AgentState → Bool
moved before working = true
moved before done = true
moved before st =
    not (agent_state_text st == agent_state_text before)
    && not (agent_state_text st == agent_state_text unknown)

unfoldable pub or_else : {W : Type 0} → H W (Unit {0}) → Answer Bool → H W (Unit {0})
or_else next (good true) = done_ tt
or_else next (good false) = next
or_else next (bad f) = next

-- `defer`: the second part runs however the first one ends, and the first one's answer is kept.
unfoldable pub finally : {W A : Type 0} → H W A → H W (Unit {0}) → H W A
finally m last s = let (r, s') = m s in let (_, s'') = last s' in (r, s'')

-- `Resolve`.
unfoldable pub first_in : String → List PaneInfo → Option (String × String)
first_in id [] = none
first_in id (p ∷ ps) =
    let rest = first_in id ps in if p.workspace_id == id then some (p.pane_id, p.cwd) else rest
