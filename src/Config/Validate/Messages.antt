-- ===== src/Config/Validate/Messages.antt =====
-- internal/config/validate.go: what the checks report. Each constructor is one message, with what it
-- names; an index counts the transitions of a state from 0.
use hounds_ciai.Prelude.{ℕ, String, List}

pub data Fault : Type 0 where
  unknown_spawn unknown_resume : (state role : String) → Fault
  unknown_decision unknown_gate unknown_target :
      (state : String) → (at : ℕ) → (name : String) → Fault
  uncovered_verdicts : (state : String) → (at : ℕ) → (branches verdicts : List String) → Fault
  not_pass_fail : (state : String) → (at : ℕ) → (branches : List String) → Fault
  stray_branch missing_branch : (state : String) → (at : ℕ) → Fault
  not_authoritative bad_anchor : (gate text : String) → Fault
  ungated : (state : String) → (at : ℕ) → (target : String) → Fault
  unbounded_cycle : List String → Fault
  no_exit undeclared_entry unbounded_agent : String → Fault
  bad_no_progress bad_drive_deadline bad_state_timeout : Fault
  early_deadline : (deadline longest : ℕ) → Fault
  unsafe_tool : (role token : String) → Fault

pub data Warning : Type 0 where
  terminal_with_transitions unreachable : String → Warning
  no_entry_state no_progress_bound : Warning
