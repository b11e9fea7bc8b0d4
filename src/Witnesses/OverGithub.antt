-- ===== src/Witnesses/OverGithub.antt =====
-- The engine over the GitHub client, at a host on which every command succeeds.
use hounds_ciai.Prelude.{ℕ, String, true, ◌≡◌, refl, some, [], ◌∷◌}
use hounds_ciai.Result.{ok}
use hounds_ciai.Config.Types.{dry_run_enabled}
use hounds_ciai.Github.Client.{Host, Gh, run_gh, read_output, find_open_pr, map_ok, list_prs_args}
use hounds_ciai.Engine.Monad.{Sys}
use hounds_ciai.Engine.Driving.{drive}
use hounds_ciai.Engine.OverGithub.{over_github, gh_commands, merge_runs, drive-runs_no_merge}
use hounds_ciai.Samples.{engine, world, start}

abbrev gh_host : Host (Unit {0})
gh_host = record {
  run = λ dir args g. (ok "output", tt);
  read_prs = λ out. some (record { number = 12; url = "https://pr/12"; state = "OPEN" } ∷ []);
  read_issue = λ out. some (record { number = 7; title = "Title"; body = "Body" });
  read_numbers = λ out. some (7 ∷ []);
  read_view = λ out. some (record {
    state = "OPEN";
    checks = [];
    reviews = [];
    review_decision = "";
    mergeable = "MERGEABLE";
    merge_state_status = "CLEAN";
    head_ref_oid = "abc";
  });
}

abbrev said : ℕ → String
said n = "Merged by the orchestrator."

abbrev at_github : Sys (Gh (Unit {0}) × ℕ)
at_github = record {
  world = (record { host = tt; ran = [] }, 100);
  store = start.store;
  task = start.task;
  trace = [];
}

drive-runs_no_merge_example :
    merge_runs (
      gh_commands said
        (drive (over_github gh_host "/repo" said world) (engine true) 3 at_github).1.trace)
    ≡ 0
unfolding merge_runs gh_commands dry_run_enabled
drive-runs_no_merge_example =
    drive-runs_no_merge gh_host "/repo" said world (engine true) 3 at_github refl

-- The search for an open PR takes the first that is listed.
finds_the_pr : find_open_pr gh_host "/repo" "agent/issue-7" at_github.world.0 ≡ (
  ok (some (record { number = 12; url = "https://pr/12"; state = "OPEN" })),
  record { host = tt; ran = ("/repo", list_prs_args "agent/issue-7") ∷ [] },
)
unfolding find_open_pr run_gh read_output map_ok
finds_the_pr = refl
