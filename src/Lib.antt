-- ===== src/Lib.antt =====
-- hounds-ciai, an orchestrator of coding agents: a daemon that takes GitHub issues through a workflow.
-- A workflow is a graph of named states (YAML, internal/config). The interpreter (internal/engine)
-- drives one task through it: it runs a state's entry (spawn an agent, resume one, merge), waits for
-- the trigger of a transition, evaluates the transition's gate or decision, and advances. A task is a
-- row of a store with an append-only audit log (internal/store); gates read GitHub (internal/github);
-- agents run in panes of an execution backend (internal/exec) whose status changes are events. The
-- scheduler (internal/scheduler) runs the drives, and a control server (internal/mcp) observes them.
--
-- What models what:
--   Config/Types       internal/config/types.go: the decoded workflow and its accessors.
--   Config/Durations   the resolved durations of types.go, with the duration texts of the schema.
--   Config/Graph       internal/config/graph.go: the transition graph, Tarjan's algorithm, Analyze, and
--                      the search of checkReachability. Graph/Reaching, Graph/Components: their laws.
--   Config/Validate    internal/config/validate.go and load.go: semanticChecks (Validate/Messages, /Edges,
--                      /Bounds) and the pipeline of parse. Validate/Sets, /Accepted, /Limits: what an
--                      accepted workflow satisfies.
--   Store              internal/store: the two tables, each statement a function over lists.
--   Store/Columns      the text columns of store.go, and its statements over them.
--   Store/Migrations   Open and applyMigrations, on a table's columns and rows.
--   Github             internal/github/status.go: a PR's checks and reviews, folded to PRStatus.
--   Github/Client      gh.go, merge.go and status.go: each method by the gh command that it runs.
--   Exec               internal/exec/backend.go: agent states, spawns and pane events.
--   Exec/Hub           internal/exec/events.go: the poller's subscribers, primed and told of changes.
--   Exec/Herdr         internal/exec/herdr.go: each method of the backend, by the commands that it runs
--                      (Herdr/Shell, Herdr/Readings). Herdr/Owned, /Contained, /Kickoff, /Delivery,
--                      /Teardown: their laws.
--   Scheduler          internal/scheduler: queue, claims, workers, commands and reaper, as steps of a
--                      relation (Scheduler/Steps); Scheduler/Claims: its invariant. Scheduler/Reaping: the
--                      cadence of startReaper.
--   Daemon             cmd/orchestratord/main.go: settledStates, done, SeedFrom, deadlinesFor, the plan.
--   Cli                cmd/orchestratord/main.go and doctor.go: validate, plan, wire, run, recover, doctor
--                      and daemon, from their flags to their exit (Cli/Commands; /Starting, /Validating:
--                      their laws). Cli/Scaffold: init.go, over the files of a disk.
--   Doctor             internal/doctor: the checks by what they ask (Doctor/Outside, Doctor/Checks), and
--                      Run, Failed and Counts. Doctor/Asking, /Laws, /Secrets: what a preflight asks.
--   Control            internal/mcp/tools.go: the tools, over the store and the scheduler.
--   Control/Server     protocol.go and server.go: handle and handleHTTP (Control/Server/Requests: their law).
--   Proc               internal/proc/runner.go: a command's environment, budget and report.
--   Eventlog           internal/eventlog: the fan-out of a log record to several sinks.
--   Engine/Monad       the engine's state and its calls of the outside. An operation maps a system (the
--                      world, the store, the task in memory, the calls made so far) to a result and a
--                      system; changes before an error are kept, as a Go method keeps them.
--   Engine/Lookup      the reads of the workflow: find transitions, isHalt, escalationTarget.
--   Engine/Notices     alert, explain, recommendFor, notify.
--   Engine/Transitions advance and the writes that go with it.
--   Engine/Gates       gatePass, evaluateGate, evaluateDone and decision.go's verdicts.
--   Engine/Spawning    spawn, the agents' context files, checkRetryCap.
--   Engine/Waiting     awaitAgentState, one round of its select per signal; evaluateGateOrSuspend.
--   Engine/Merging     merge.go.
--   Engine/Naming      TaskID and branchName.
--   Engine/Driving     runState, driveLoop and the settles. Engine/Resuming: reconcile, ensureTask and Run.
--   Engine/Recovering  Recover, the sweep at the daemon's start.
--   Engine/Configured  New and resolveNoProgress: an engine from its config.
--   Engine/Executable  executable.go: which states the interpreter can drive.
--   Engine/Steps       the abstract view: quiet steps, and moves along edges of the workflow.
--   Engine/Runs, Engine/Quietly, Engine/Paths, Engine/Advances, Engine/Refines, Engine/Reconciles
--                      the rules and lemmas by which the operations above refine that view.
--   Engine/Promises    what follows from the refinement. Engine/Laws: single operations.
--   Engine/OverGithub  the engine's calls of GitHub as the client's methods.
--   Engine/Accepted    the interpreter on a workflow that passed the validator.
--   Samples, Witnesses a concrete workflow and world, and the theorems at them.
--
-- The world is a parameter: GitHub, the backend, files, the clock, the notifier, whether a statement
-- of the database succeeds, and the order and number of the signals that a wait sees. The theorems on
-- drives hold for every such world, so for every interleaving of timers, events and cancellations.
-- driveLoop has no bound in the source (a workflow may have cycles): the model takes a number of
-- rounds, and what is proved of a drive holds for every number. A drive that is cut off so, or a wait
-- whose list of signals ends, answers `still_waiting`, which no theorem counts as a result.
-- A PR's status is read once per run over a list of gates, and shared, as in evaluateGate.
-- The herdr backend runs over a host, which answers each command, tells the time and decodes JSON.
--
-- Fuel: the search of checkReachability has one round more than the graph has edges, since a node's
-- edges are pushed once; Tarjan's calls have one level more than the graph has nodes, since each call
-- enters a node; the polls of kickoffAccepted are one more than its timeout has nanoseconds, since
-- each pause takes time. Each is proved to be enough.
--
-- Numbers are naturals: the schema bounds counts and caps from below, durations are nanoseconds that
-- the parser keeps within an int64, the double of one wraps as an int64 does, and a remaining wait
-- stops at 0 where Go's timer fires at once. Directories that init makes are not on its disk.
-- Error values keep their kind and not their text. SHA-256 digests of panes are taken to be free of
-- collisions. Not modelled: JSON, YAML, the JSON schema and SQL's own text (parameters, or lists of
-- rows), the start of processes (calls of a world or a host, which are parameters), the control
-- server's accept loop and its recovery from panics, the parsing of flags, what is printed, tickers,
-- and log texts. Tarjan's components are not proved to be the strongly connected ones.
pub mod Prelude
pub mod Result
pub mod Config
pub mod Store
pub mod Github
pub mod Exec
pub mod Engine
pub mod Scheduler
pub mod Daemon
pub mod Doctor
pub mod Cli
pub mod Control
pub mod Proc
pub mod Eventlog
pub mod Samples
pub mod Witnesses
