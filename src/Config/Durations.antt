-- ===== src/Config/Durations.antt =====
-- internal/config/types.go: the durations that a workflow resolves to. Durations are nanoseconds.
-- `time.ParseDuration` is written out for the texts that the schema admits, digits and one of the
-- units s, m and h; it refuses what does not fit an int64. Any other text never passes the schema,
-- and is refused here.
pub mod Deadline
use hounds_ciai.Prelude.{
  ℕ, ◌+◌, ◌-◌, ◌*◌, ◌%◌, ◌^◌, String, Bool, true, false, not, ◌&&◌, Option, none, some, List, [],
  ◌∷◌, ◌==◌, string_eq, ltb, leb, if◌then◌else◌,
}
use Prim.Native.Char.{Char, code}
use hounds_ciai.Config.Types.{Policies, Transition, Workflow, is_timeout, state_of, sorted_keys}

abbrev pub second : ℕ
second = 1000000000

abbrev pub minute : ℕ
minute = 60 * second

abbrev pub hour : ℕ
hour = 60 * minute

unit_of : String → Option ℕ
unit_of s =
    if s == "s"
    then some second
    else if s == "m"
    then some minute
    else if s == "h"
    then some hour
    else none

-- The largest int64.
abbrev max_duration : ℕ
max_duration = 2 ^ 63 - 1

in_range : ℕ → Option ℕ
in_range d = if leb d max_duration then some d else none

scaled : ℕ → Option ℕ → Option ℕ
unfolding in_range
scaled v none = none
scaled v (some u) = in_range (v * u)

is_digit : Char → Bool
is_digit c = leb b'0' (code c) && leb (code c) b'9'

-- The number read so far, whether it has a digit, and what is left of the text.
parse_from : ℕ → Bool → String → Option ℕ
unfolding unit_of scaled is_digit
parse_from v seen String.[] = none
parse_from v seen (String.◌∷◌ c s) =
    let rest = parse_from (v * 10 + (code c - b'0')) true s in
    if is_digit c then rest else if seen then scaled v (unit_of (String.◌∷◌ c s)) else none

unfoldable pub parse_duration : String → Option ℕ
unfolding parse_from
parse_duration s = parse_from 0 false s

abbrev pub default_no_progress_timeout : ℕ
default_no_progress_timeout = 30 * minute

abbrev pub min_drive_deadline : ℕ
min_drive_deadline = hour

-- `ResolveNoProgressTimeout`: 0 disables the bound.
unfoldable pub resolve_no_progress_timeout : Policies → Option ℕ
resolve_no_progress_timeout p =
    if p.no_progress_timeout == ""
    then some default_no_progress_timeout
    else parse_duration p.no_progress_timeout

-- The inner loop of `LongestStateTimeout`.
longer : ℕ → Option ℕ → Option ℕ
longer longest none = none
longer longest (some d) = some (if ltb longest d then d else longest)

longest_of : List Transition → Option ℕ → Option ℕ
unfolding longer
longest_of [] longest = longest
longest_of (t ∷ ts) longest = longest_of ts (
    if is_timeout t.when
    then elim longest [ none ↦ none | some l ↦ longer l (parse_duration t.when.timeout) ]
    else longest)

longest_over : Workflow → List String → Option ℕ → Option ℕ
unfolding longest_of
longest_over wf [] longest = longest
longest_over wf (n ∷ ns) longest =
    longest_over wf ns (longest_of (state_of wf n).transitions longest)

-- `LongestStateTimeout`: `none` when some declared timeout does not parse.
unfoldable pub longest_state_timeout : Workflow → Option ℕ
unfolding longest_over
longest_state_timeout wf = longest_over wf (sorted_keys wf.states) (some 0)

-- What an int64 doubles to without a sign: 2^62.
abbrev pub doubling_limit : ℕ
doubling_limit = 2 ^ 62

-- `2 * longest` of an int64: a double that wraps to a negative number is `none`.
unfoldable pub doubled : ℕ → Option ℕ
doubled longest =
    let bits = 2 * longest % 2 ^ 64 in if ltb max_duration bits then none else some bits

-- `ResolveDriveDeadline`: the policy's, else twice the longest timeout, in int64, and at least an hour.
derived_deadline : Option ℕ → Option ℕ
unfolding doubled
derived_deadline none = none
derived_deadline (some longest) = elim (doubled longest) [
  | none ↦ some min_drive_deadline
  | some d ↦ some (if ltb min_drive_deadline d then d else min_drive_deadline)
]

unfoldable pub resolve_drive_deadline : Workflow → Option ℕ
unfolding derived_deadline
resolve_drive_deadline wf =
    if not (wf.policies.drive_deadline == "")
    then parse_duration wf.policies.drive_deadline
    else derived_deadline (longest_state_timeout wf)
