-- ===== src/Proc.antt =====
-- internal/proc/runner.go: the budget of a command, how its end is reported, and the environment that
-- its process sees. The process itself is a parameter. A budget is in nanoseconds, and 0 is none.
use hounds_ciai.Prelude.{
  ℕ, ◌*◌, String, Bool, true, false, not, ◌&&◌, ◌≡◌, ◌↔◌, Option, none, some, List, [], ◌∷◌, ◌==◌,
  string_eq, nat_eq, if◌then◌else◌, ltb, In, here, there, In-cons, contains, filter, Bool-cases,
  inl, inr, arith,
}
use Prim.Native.Char.{code}

abbrev pub default_timeout : ℕ
default_timeout = 120 * 1000000000

-- The runner: the variables that it drops, and its default budget.
pub record OsRunner : Type 0 where
  pub drop_env : List String
  pub timeout : ℕ

-- `New`, `NewScrubbed` and `WithTimeout`.
abbrev pub new_runner : OsRunner
new_runner = record { drop_env = []; timeout = default_timeout }

abbrev pub new_scrubbed : List String → OsRunner
new_scrubbed drop = record { drop_env = drop; timeout = default_timeout }

abbrev pub with_timeout : OsRunner → ℕ → OsRunner
with_timeout r d = record r { timeout = d }

-- `budgetFrom`: the context's budget, if it carries one.
abbrev pub budget_from : Option ℕ → ℕ → ℕ
budget_from none def = def
budget_from (some d) def = d

-- `strings.Cut(kv, "=")`: what stands before the first equals sign, or all.
unfoldable pub key_of : String → String
key_of String.[] = String.[]
key_of (String.◌∷◌ c s) =
    let rest = String.◌∷◌ c (key_of s) in if code c == b'=' then String.[] else rest

-- `scrubEnv`.
unfoldable pub scrub_env : List String → List String → List String
unfolding key_of
scrub_env env drop = filter (λ kv. not (contains drop (key_of kv))) env

-- A process that ended: what it printed, and whether os/exec gives an error.
pub record Ended : Type 0 where
  pub stdout : String
  pub stderr : String
  pub failed : Bool

pub data Report : Type 0 where
  printed : (out : String) → Report
  over_budget : (out : String) → (budget : ℕ) → Report
  failed_with : (out text : String) → Report

-- A run of a process, in an environment and with what is left of its budget, if it has one; it tells
-- whether the command's context was done at the end, and whether the caller's was.
pub record Run : Type 0 where
  pub ended : Ended
  pub own_done : Bool
  pub caller_done : Bool

abbrev pub or_stdout : String → String → String
or_stdout err out = if err == "" then out else err

unfoldable pub report : (String → String) → ℕ → Run → Report
report trim budget r =
    let e = r.ended in
    if e.failed
    then (if r.own_done && not r.caller_done
        then over_budget e.stdout budget
        else failed_with e.stdout (or_stdout (trim e.stderr) (trim e.stdout)))
    else printed e.stdout

-- `Run`: `start` runs a process; `trim` is strings.TrimSpace.
unfoldable pub run_command :
    (String → String) → (List String → Option ℕ → Run) → OsRunner → List String → Option ℕ → Report
unfolding scrub_env report
run_command trim start r env carried =
    let budget = budget_from carried r.timeout in
    let limit = if ltb 0 budget then some budget else none in
    let seen : List String = elim r.drop_env [ [] ↦ env | d ∷ ds ↦ scrub_env env (d ∷ ds) ] in
    report trim budget (start seen limit)

-- The scrubbed environment has the entries whose key is not dropped, and no other.
pub scrub_env_lem :
    (env drop : List String) (kv : String)
    → In kv (scrub_env env drop) ↔ (In kv env × (contains drop (key_of kv) ≡ false))
unfolding scrub_env
scrub_env_lem [] drop kv = (λ i. elim i [ ], λ p. elim p.0 [ ])
scrub_env_lem (x ∷ env) drop kv = elim (Bool-cases (contains drop (key_of x))) [
  | inl e ↦ rw e (
    λ i. (there ((scrub_env_lem env drop kv).0 i).0, ((scrub_env_lem env drop kv).0 i).1),
    λ p. elim (In-cons p.0) [
      | inl q ↦ absurd (clash (contains drop (key_of x)) e (rw q at p.1))
      | inr j ↦ (scrub_env_lem env drop kv).1 (j, p.1)
    ],
  )
  | inr e ↦ rw e (
    λ i. elim (In-cons i) [
      | inl q ↦ (rw q here, rw q e)
      | inr j ↦ (there ((scrub_env_lem env drop kv).0 j).0, ((scrub_env_lem env drop kv).0 j).1)
    ],
    λ p. elim (In-cons p.0) [
      | inl q ↦ rw q here
      | inr j ↦ there ((scrub_env_lem env drop kv).1 (j, p.1))
    ],
  )
]
  where
    clash : (b : Bool) → b ≡ true → ¬ (b ≡ false)
    clash b t f = cc

-- A command is reported as over its budget only when its own context ended and its caller's did not:
-- an operator's cancel, or a shutdown, is never taken for a command that hangs.
pub report-over_budget :
    (trim : String → String) (budget b : ℕ) (r : Run) (out : String)
    → report trim budget r ≡ over_budget out b
    → (r.caller_done ≡ false) × (r.own_done ≡ true) × (b ≡ budget)
unfolding report
report-over_budget trim budget b r out h = ground (arith, h)
