-- ===== src/Exec/Herdr/Shell.antt =====
-- internal/exec/herdr.go: the commands that the backend runs, and the monad of its methods. A method
-- changes the world by its commands, which a trace records, newest first.
use hounds_ciai.Prelude.{
  ℕ, ◌/◌, String, Bool, true, false, Option, none, some, List, [], ◌∷◌, string_eq,
}
use hounds_ciai.Engine.Naming.{decimal}
use Prim.Native.String.{◌++◌ as text_append}
use hounds_ciai.Exec.{AgentState, agent_state_text}
use hounds_ciai.Exec.Hub.{PaneInfo}

-- A call of git, of herdr, of os.RemoveAll, or a pause.
pub data Command : Type 0 where
  worktree_remove : (repo path : String) → Command
  worktree_prune : (repo : String) → Command
  branch_delete : (repo branch : String) → Command
  fetch : (repo ref : String) → Command
  worktree_add_existing : (repo path branch : String) → Command
  worktree_add_fresh : (repo branch path base : String) → Command
  workspace_list pane_list : Command
  workspace_create : (cwd label : String) → Command
  workspace_close : (id : String) → Command
  pane_run : (pane text : String) → Command
  pane_wait_output : (pane mark : String) → (timeout : ℕ) → Command
  send_text : (pane text : String) → Command
  send_enter : (pane : String) → Command
  pane_read : (pane : String) → (lines : ℕ) → Command
  agent_wait : (pane : String) → AgentState → (timeout : ℕ) → Command
  remove_all : (path : String) → Command
  pause : (time : ℕ) → Command

-- The configuration. Durations are nanoseconds; `dir_of` and `join` are those of path/filepath.
pub record Herdr : Type 0 where
  pub git_bin : String
  pub herdr_bin : String
  pub worktrees_dir : String
  pub repo_dir : String
  pub ready_match : String
  pub ready_timeout : ℕ
  pub wait_timeout : ℕ
  pub submit_delay : ℕ
  pub kickoff_ack_timeout : ℕ
  pub kickoff_ack_poll : ℕ
  pub dir_of : String → String
  pub join : String → String → String

-- `msString`.
unfoldable pub ms_string : ℕ → String
ms_string d = decimal (d / 1000000)

-- The argument vector of a command, its program first. The last two are no processes.
unfoldable pub argv : Herdr → Command → List String
unfolding ms_string
argv h (worktree_remove repo path) =
    h.git_bin ∷ "-C" ∷ repo ∷ "worktree" ∷ "remove" ∷ path ∷ "--force" ∷ []
argv h (worktree_prune repo) = h.git_bin ∷ "-C" ∷ repo ∷ "worktree" ∷ "prune" ∷ []
argv h (branch_delete repo branch) = h.git_bin ∷ "-C" ∷ repo ∷ "branch" ∷ "-D" ∷ branch ∷ []
argv h (fetch repo ref) = h.git_bin ∷ "-C" ∷ repo ∷ "fetch" ∷ "origin" ∷ ref ∷ []
argv h (worktree_add_existing repo path branch) =
    h.git_bin ∷ "-C" ∷ repo ∷ "worktree" ∷ "add" ∷ path ∷ branch ∷ []
argv h (worktree_add_fresh repo branch path base) =
    h.git_bin
    ∷ "-C"
    ∷ repo
    ∷ "worktree"
    ∷ "add"
    ∷ "-b"
    ∷ branch
    ∷ "--no-track"
    ∷ path
    ∷ text_append "origin/" base
    ∷ []
argv h workspace_list = h.herdr_bin ∷ "workspace" ∷ "list" ∷ []
argv h pane_list = h.herdr_bin ∷ "pane" ∷ "list" ∷ []
argv h (workspace_create cwd label) =
    h.herdr_bin ∷ "workspace" ∷ "create" ∷ "--cwd" ∷ cwd ∷ "--label" ∷ label ∷ "--no-focus" ∷ []
argv h (workspace_close id) = h.herdr_bin ∷ "workspace" ∷ "close" ∷ id ∷ []
argv h (pane_run pane text) = h.herdr_bin ∷ "pane" ∷ "run" ∷ pane ∷ text ∷ []
argv h (pane_wait_output pane mark timeout) =
    h.herdr_bin
    ∷ "pane"
    ∷ "wait-output"
    ∷ pane
    ∷ "--match"
    ∷ mark
    ∷ "--timeout"
    ∷ ms_string timeout
    ∷ []
argv h (send_text pane text) = h.herdr_bin ∷ "pane" ∷ "send-text" ∷ pane ∷ text ∷ []
argv h (send_enter pane) = h.herdr_bin ∷ "pane" ∷ "send-keys" ∷ pane ∷ "Enter" ∷ []
argv h (pane_read pane lines) =
    h.herdr_bin ∷ "pane" ∷ "read" ∷ pane ∷ "--source" ∷ "recent" ∷ "--lines" ∷ decimal lines ∷ []
argv h (agent_wait pane target timeout) =
    h.herdr_bin
    ∷ "agent"
    ∷ "wait"
    ∷ pane
    ∷ "--until"
    ∷ agent_state_text target
    ∷ "--timeout"
    ∷ ms_string timeout
    ∷ []
argv h (remove_all path) = path ∷ []
argv h (pause time) = []

-- The outside: a process answers its output or fails, the context may end in a pause, and the decoders
-- of herdr's JSON. `deadline` is what is left of the context's, if it has one.
pub record Host (W : Type 0) : Type 0 where
  pub run : Command → List String → W → Option String × W
  pub clock : W → ℕ
  pub pauses : ℕ → W → Bool × W
  pub deadline : W → Option ℕ
  pub panes_of : String → Option (List PaneInfo)
  pub workspaces_of : String → Option (List (String × String))
  pub root_pane_of : String → Option String

-- Why a method gave up.
pub data Failure : Type 0 where
  command_failed : Command → Failure
  undecodable no_root_pane no_launch out_of_polls : Failure
  not_accepted : (pane : String) → Failure

pub data Answer (A : Type 0) : Type 0 where
  good : A → Answer A
  bad : Failure → Answer A

pub record Session (W : Type 0) : Type 0 where
  pub world : W
  pub trace : List Command

abbrev pub H : Type 0 → Type 0 → Type 0
H W A = Session W → Answer A × Session W

module _ {W : Type 0} where
  unfoldable pub done_ : {A : Type 0} → A → H W A
  done_ a s = (good a, s)

  unfoldable pub give_up : {A : Type 0} → Failure → H W A
  give_up f s = (bad f, s)

  unfoldable pub proceed :
      {A B : Type 0} → (A → H W B) → Answer A × Session W → Answer B × Session W
  proceed f (good a, s) = f a s
  proceed f (bad e, s) = (bad e, s)

  infixl 5 ◌>>=◌ ◌>>◌
  unfoldable pub ◌>>=◌ : {A B : Type 0} → H W A → (A → H W B) → H W B
  unfolding proceed
  m >>= f = λ s. proceed f (m s)

  unfoldable pub ◌>>◌ : {A B : Type 0} → H W A → H W B → H W B
  unfolding ◌>>=◌
  m >> n = m >>= λ _. n

  -- `_, _ = …`: the step's failure is a value that the next step may drop.
  unfoldable pub attempt : {A : Type 0} → H W A → H W (Answer A)
  attempt m s = let (r, s') = m s in (good r, s')

  unfoldable pub choose : {A : Type 0} → Bool → H W A → H W A → H W A
  choose true m n = m
  choose false m n = n

  -- `h.r.Run`.
  unfoldable pub issue : Host W → Herdr → Command → H W String
  issue host h c s =
      let (out, w) = host.run c (argv h c) s.world in
      let s' : Session W = record { world = w; trace = c ∷ s.trace } in
      (elim out [ none ↦ bad (command_failed c) | some text ↦ good text ], s')

  unfoldable pub wait_for : Host W → ℕ → H W Bool
  wait_for host d s =
      let (on, w) = host.pauses d s.world in
      (good on, record { world = w; trace = pause d ∷ s.trace })

  unfoldable pub read_clock : Host W → H W ℕ
  read_clock host s = (good (host.clock s.world), s)

  unfoldable pub context_left : Host W → H W (Option ℕ)
  context_left host s = (good (host.deadline s.world), s)

  unfoldable pub decoded : {A : Type 0} → Option A → H W A
  unfolding done_ give_up
  decoded none = give_up undecodable
  decoded (some a) = done_ a
