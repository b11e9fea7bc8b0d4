-- ===== src/Samples/Reviewed.antt =====
-- A workflow with a review loop: an agent implements, another decides, and gates guard the merge.
use hounds_ciai.Prelude.{String, List, true, false, none, some, [], ◌∷◌}
use hounds_ciai.Config.Types.{Trigger, Transition, State, Workflow, no_gate}

abbrev when_done : Trigger
when_done = record { event = "agent.done"; timeout = ""; decision = ""; gate = [] }

abbrev pub after_time : String → String → Transition
after_time time to = record {
  when = record { event = ""; timeout = time; decision = ""; gate = [] };
  evaluate = none;
  to = to;
  branch = [];
  action = none;
}

abbrev pub opens_pr : Transition
opens_pr = record {
  when = when_done;
  evaluate = some (record { decision = ""; gate = "pr" ∷ [] });
  to = "";
  branch = ("pass", "reviewing") ∷ ("fail", "stuck") ∷ [];
  action = none;
}

abbrev pub decides : Transition
decides = record {
  when = when_done;
  evaluate = some (record { decision = "review"; gate = [] });
  to = "";
  branch = ("approve", "checking") ∷ ("changes", "implementing") ∷ [];
  action = none;
}

abbrev pub merges : Transition
merges = record {
  when = record { event = ""; timeout = ""; decision = ""; gate = "checks" ∷ [] };
  evaluate = none;
  to = "";
  branch = ("pass", "merging") ∷ ("fail", "implementing") ∷ [];
  action = none;
}

abbrev runs : String → Transition → State
runs role t = record {
  entry = some (record { spawn = role; resume = ""; with_ = ""; action = "" });
  transitions = t ∷ after_time "45m" "stuck" ∷ [];
  terminal = "";
  wait_for = "";
  alert = false;
}

abbrev pub checking : State
checking = record {
  entry = none;
  transitions = merges ∷ [];
  terminal = "";
  wait_for = "";
  alert = false;
}

abbrev merging : State
merging = record {
  entry = some (record { spawn = ""; resume = ""; with_ = ""; action = "merge_pr" });
  transitions =
      record {
        when = record { event = "pr.merged"; timeout = ""; decision = ""; gate = [] };
        evaluate = none;
        to = "merged";
        branch = [];
        action = none;
      }
      ∷ [];
  terminal = "";
  wait_for = "";
  alert = false;
}

abbrev pub reviewed : Workflow
reviewed = record {
  version = 1;
  name = "reviewed";
  entry_state = some "implementing";
  policies = record {
    max_concurrent_tasks = 2;
    dry_run = some false;
    circuit_breaker = false;
    retry_caps = ("implementing", 3) ∷ [];
    blocked_timeout = "";
    drive_deadline = "2h";
    no_progress_timeout = "0s";
    execution = record { backend = "herdr"; run_as = ""; sandbox = false };
  };
  sources = [];
  roles =
      (
        "dev",
        record {
          launch = "claude" ∷ [];
          task_delivery = "";
          workspace = "";
          kickoff = "";
          allowed_tools = "Bash" ∷ "mcp__gh" ∷ [];
        },
      )
      ∷ [];
  gates =
      ("pr", record no_gate { type = "github_pr" })
      ∷ ("checks", record no_gate { type = "github_checks"; all_passing = true })
      ∷ [];
  decisions =
      (
        "review",
        record {
          impl = record { type = "agent"; rubric = "review.md"; command = [] };
          verdicts = "approve" ∷ "changes" ∷ [];
        },
      )
      ∷ [];
  states =
      ("implementing", runs "dev" opens_pr)
      ∷ ("reviewing", runs "dev" decides)
      ∷ ("checking", checking)
      ∷ ("merging", merging)
      ∷ (
        "merged",
        record {
          entry = none;
          transitions = [];
          terminal = "success";
          wait_for = "";
          alert = false;
        },
      )
      ∷ (
        "stuck",
        record {
          entry = none;
          transitions = [];
          terminal = "failure";
          wait_for = "";
          alert = true;
        },
      )
      ∷ [];
}

abbrev to_on : String → String → Transition
to_on event to = record {
  when = record { event = event; timeout = ""; decision = ""; gate = [] };
  evaluate = none;
  to = to;
  branch = [];
  action = none;
}

abbrev pub moves_on : List Transition → State
moves_on ts = record { entry = none; transitions = ts; terminal = ""; wait_for = ""; alert = false }

-- Two loops through one state, of which only one has a retry cap.
abbrev pub tangled : Workflow
tangled = record reviewed {
  entry_state = some "draft";
  policies = record reviewed.policies { retry_caps = ("audit", 1) ∷ [] };
  states =
      ("draft", moves_on (to_on "ready" "check" ∷ []))
      ∷ ("check", moves_on (to_on "back" "draft" ∷ to_on "escalate" "audit" ∷ []))
      ∷ ("audit", moves_on (to_on "back" "check" ∷ []))
      ∷ [];
}

-- A timeout that the schema admits and that no int64 holds.
abbrev pub overlong : Workflow
overlong = record reviewed {
  entry_state = some "draft";
  policies = record reviewed.policies { drive_deadline = ""; no_progress_timeout = "" };
  states = ("draft", moves_on (after_time "9999999999h" "draft" ∷ [])) ∷ [];
}

-- A timeout of which an int64 holds the nanoseconds, but not their double.
abbrev pub wrapping : Workflow
wrapping = record overlong {
  states = ("draft", moves_on (after_time "2000000h" "draft" ∷ [])) ∷ [];
}
