-- ===== src/Witnesses/Backends.antt =====
-- The theorems on the herdr backend, at a host whose agent starts working after a while.
use hounds_ciai.Prelude.{
  ℕ, ◌+◌, Bool, true, false, ◌≡◌, ◌⊎◌, refl, none, some, [], ◌∷◌, In, here, there, ltb,
  if◌then◌else◌, ==_false, nat_eq, string_eq, arith,
}
use Prim.Native.String.{◌++◌ as text_append}
use hounds_ciai.Exec.{Spawn, idle, normalize_state}
use hounds_ciai.Exec.Herdr.Shell.{
  Command, worktree_add_fresh, workspace_list, workspace_close, Herdr, Host, good, Session, ◌>>=◌,
  ◌>>◌, attempt, choose, done_, issue, decoded, read_clock, wait_for,
}
use hounds_ciai.Exec.Herdr.{
  spawn, kickoff_accepted, open_workspace, smoke_kickoff, current_status, launch_in,
}
use hounds_ciai.Exec.Herdr.Readings.{worktree_dir, smoke_label}
use hounds_ciai.Exec.Herdr.Owned.{Own}
use hounds_ciai.Exec.Herdr.Contained.{spawn-Own}
use hounds_ciai.Exec.Herdr.Kickoff.{Ticks, kickoff_accepted-Tells}
use hounds_ciai.Exec.Herdr.Delivery.{Moved, spawn-Seen}
use hounds_ciai.Exec.Herdr.Teardown.{Shown, tried, smoke_kickoff-closes}

-- The host's state is its clock. Each process takes one unit of time, and prints the agent's status.
abbrev host : Host ℕ
host = record {
  run = λ c args w. (some (if ltb w 14 then "idle" else "working"), w + 1);
  clock = λ w. w;
  pauses = λ d w. (true, w + d);
  deadline = λ w. none;
  panes_of = λ out.
      some
        (record { pane_id = "pane-1"; agent_status = out; workspace_id = "w1"; cwd = "/wt" } ∷ []);
  workspaces_of = λ out. some (("w1", smoke_label) ∷ []);
  root_pane_of = λ out. some "pane-1";
}

abbrev herdr : Herdr
herdr = record {
  git_bin = "git";
  herdr_bin = "herdr";
  worktrees_dir = "/wt";
  repo_dir = "/repo";
  ready_match = ">";
  ready_timeout = 20000000000;
  wait_timeout = 0;
  submit_delay = 0;
  kickoff_ack_timeout = 5;
  kickoff_ack_poll = 1;
  dir_of = λ p. p;
  join = λ a b. text_append a (text_append "/" b);
}

abbrev job : Spawn
job = record {
  task_id = "issue-7";
  role = "dev";
  branch = "agent/issue-7";
  repo_dir = "/repo";
  base = "main";
  launch = "claude" ∷ [];
  kickoff = "read the task";
  preserve_branch = false;
}

abbrev fresh : Session ℕ
fresh = record { world = 0; trace = [] }

spawned : Session ℕ
spawned = (spawn host herdr job fresh).1

spawns : spawn host herdr job fresh ≡ (good ("pane-1", "/wt/wt-issue-7"), spawned)
unfolding spawn spawned worktree_dir current_status ◌>>=◌ ◌>>◌ attempt choose done_ issue decoded
    read_clock normalize_state wait_for
spawns = refl

abbrev added_worktree : Command
added_worktree = worktree_add_fresh "/repo" "agent/issue-7" "/wt/wt-issue-7" "main"

adds : In added_worktree (spawn host herdr job fresh).1.trace
unfolding spawn worktree_dir current_status ◌>>=◌ ◌>>◌ attempt choose done_ issue decoded read_clock
    normalize_state wait_for
adds = there (there (there (there (there (there (there (there (there here))))))))

spawn-Own_example : In added_worktree [] ⊎ Own host herdr job added_worktree
spawn-Own_example = spawn-Own host herdr job fresh added_worktree adds

spawn-Seen_example :
    ("/wt/wt-issue-7" ≡ worktree_dir herdr "/repo" "issue-7")
    × (opened : Session ℕ) × (launched : Session ℕ) × (launch_in host herdr "pane-1"
          ("claude" ∷ [])
          opened
        ≡ (good tt, launched))
    × Moved host herdr "pane-1" launched spawned
spawn-Seen_example =
    spawn-Seen host herdr job "pane-1" "/wt/wt-issue-7" fresh spawned (==_false 5 0 refl) spawns

ticks : Ticks host
ticks = record { running = λ c args w. omega arith; pausing = λ d w on. omega arith }

kickoff_accepted-Tells_example :
    (b : Bool) × (s' : Session ℕ) × (kickoff_accepted host herdr "pane-1" idle fresh ≡ (good b, s'))
kickoff_accepted-Tells_example =
    kickoff_accepted-Tells host herdr "pane-1" ticks (omega arith) idle fresh

opened : Session ℕ
opened = (open_workspace host herdr "/tmp" smoke_label fresh).1

opens : open_workspace host herdr "/tmp" smoke_label fresh ≡ (good "pane-1", opened)
unfolding open_workspace opened ◌>>=◌ issue decoded choose
opens = refl

abbrev closing : Session ℕ
closing = tried host herdr "pane-1" ("claude" ∷ []) "ping" opened

lists : Shown host herdr smoke_label "w1" closing.world
lists = record {
  out = if ltb closing.world 14 then "idle" else "working";
  earlier = [];
  later = [];
  answers = refl;
  decodes = refl;
  first = λ i l m. elim m [ ];
}

smoke_kickoff-closes_example :
    (smoke_kickoff host herdr "/tmp" ("claude" ∷ []) "ping" fresh).1.trace
    ≡ workspace_close "w1" ∷ workspace_list ∷ closing.trace
smoke_kickoff-closes_example =
    smoke_kickoff-closes host herdr "/tmp" "claude" "ping" "pane-1" "w1" [] fresh opened opens lists
      (==_false "w1" "" refl)
