-- ===== src/Cli/Commands.antt =====
-- cmd/orchestratord/main.go: cmdRun, cmdRecover and cmdDaemon. The drives of an engine are given.
use hounds_ciai.Prelude.{
  ℕ, String, false, not, ◌&&◌, ◌||◌, Option, none, some, List, ◌==◌, string_eq, nat_eq,
}
use hounds_ciai.Result.{Result}
use hounds_ciai.Config.Durations.{resolve_no_progress_timeout, resolve_drive_deadline}
use hounds_ciai.Daemon.{watched_label, settled_states}
use hounds_ciai.Doctor.Outside.{CheckResult, Env, close_store, Host, D, pure, ◌>>=◌, ask, choose}
use hounds_ciai.Doctor.{any_failed, run_checks}
use hounds_ciai.Cli.{
  CommonFlags, DaemonFlags, System, run_exit, recover_exit, Wired, Wiring, invalid, not_executable,
  unwired, wired_up, Service, Start, exits, serves, workers_of, wire, doctor_env,
}

-- The deferred close of the store.
unfoldable pub closing : {W : Type 0} → Host W → {A : Type 0} → CommonFlags → A → D W A
closing host cf a = ask host (close_store cf.db) >>= λ closed. pure a

-- `reportConfigErr` exits with 1 for every failure of `wire`.
unfoldable pub when_wired : {W : Type 0} {A : Type 0} → A → (Wired → D W A) → Wiring → D W A
when_wired refusal go (invalid e) = pure refusal
when_wired refusal go (not_executable xs) = pure refusal
when_wired refusal go unwired = pure refusal
when_wired refusal go (wired_up w) = go w

module _ {W : Type 0} (host : Host W) (sys : System) where
  -- `cmdRun`: none are flags that do not parse. An issue below 1 is 0.
  unfoldable pub cmd_run : (Wired → ℕ → D W (Result String)) → Option (CommonFlags × ℕ) → D W ℕ
  unfolding when_wired closing run_exit
  cmd_run drive none = pure 2
  cmd_run drive (some (cf, issue)) =
      choose (cf.config == "" || (cf.repo == "" || issue == 0)) (pure 2) (
        wire host sys cf
        >>= when_wired 1 (λ w. drive w issue >>= λ r. closing host cf (run_exit r)))

  -- `cmdRecover`.
  unfoldable pub cmd_recover : (Wired → D W (Result (Unit {0}))) → Option CommonFlags → D W ℕ
  unfolding when_wired closing recover_exit
  cmd_recover sweep none = pure 2
  cmd_recover sweep (some cf) =
      choose (cf.config == "" || cf.repo == "") (pure 2)
        (wire host sys cf >>= when_wired 1 (λ w. sweep w >>= λ r. closing host cf (recover_exit r)))

  -- `cmdDaemon` from the control server's address on.
  unfoldable pub listen : DaemonFlags → Service → D W Start
  unfolding closing
  listen f v =
      choose (not (f.mcp_listen == "") && not (sys.listens f.mcp_listen))
        (closing host f.common (exits 1)) (pure (serves v))

  -- The two bounds, which must resolve.
  unfoldable pub arm_bounds : DaemonFlags → Wired → String → Option ℕ → Option ℕ → D W Start
  unfolding listen closing
  arm_bounds f w label none no_progress = closing host f.common (exits 2)
  arm_bounds f w label (some deadline) none = closing host f.common (exits 2)
  arm_bounds f w label (some deadline) (some bound) = listen f (record {
    wired = w;
    label = label;
    settled = settled_states w.workflow;
    workers = workers_of w.workflow.policies.max_concurrent_tasks;
    drive_deadline = deadline;
  })

  unfoldable pub after_preflight : DaemonFlags → Wired → String → D W Start
  unfolding arm_bounds
  after_preflight f w label =
      arm_bounds f w label (resolve_drive_deadline w.workflow)
        (resolve_no_progress_timeout w.workflow.policies)

  -- The preflight's verdict.
  unfoldable pub judged : DaemonFlags → Wired → String → List CheckResult → D W Start
  unfolding after_preflight closing
  judged f w label rs =
      choose (any_failed rs) (closing host f.common (exits 1)) (after_preflight f w label)

  unfoldable pub preflight : DaemonFlags → Wired → String → Option Env → D W Start
  unfolding judged closing
  preflight f w label none = closing host f.common (exits 2)
  preflight f w label (some env) = run_checks host false env >>= judged f w label

  unfoldable pub with_label : DaemonFlags → Wired → Option String → D W Start
  unfolding preflight after_preflight closing
  with_label f w none = closing host f.common (exits 2)
  with_label f w (some label) =
      choose f.skip_preflight (after_preflight f w label)
        (doctor_env host sys f.common >>= preflight f w label)

  unfoldable pub start_wired : DaemonFlags → Wired → D W Start
  unfolding with_label
  start_wired f w = with_label f w (watched_label w.workflow)

  -- `cmdDaemon`, up to the scheduler's Serve.
  unfoldable pub cmd_daemon : Option DaemonFlags → D W Start
  unfolding start_wired when_wired
  cmd_daemon none = pure (exits 2)
  cmd_daemon (some f) = choose (f.common.config == "" || f.common.repo == "") (pure (exits 2)) (
      choose (not (f.event_log == "") && not (sys.opens f.event_log)) (pure (exits 2))
        (wire host sys f.common >>= when_wired (exits 1) (start_wired f)))
