-- ===== src/Github.antt =====
-- internal/github: a PR's merge-gate inputs, folded from the JSON that `gh pr view` prints. The JSON
-- decoding and the gh processes are not modelled; Client has the methods, by the commands that they run.
pub mod Reviews
pub mod Client
use hounds_ciai.Prelude.{
  ℕ, suc, String, Bool, true, false, not, ◌&&◌, ◌||◌, Option, none, some, List, [], ◌∷◌, ◌==◌,
  string_eq, nat_eq, if◌then◌else◌, contains,
}
use hounds_ciai.Prelude.Maps.{lookup, insert}
use hounds_ciai.Prelude.Sorting.{str_leb}

pub record PrStatus : Type 0 where
  pub state : String
  pub checks_total : ℕ
  pub checks_failed : ℕ
  pub checks_pending : ℕ
  pub approved_reviews : ℕ
  pub review_decision : String
  pub mergeable : String
  pub merge_state_status : String
  pub head_sha : String

pub record Issue : Type 0 where
  pub number : ℕ
  pub title : String
  pub body : String

-- `ChecksGreen`: also true of a PR with no checks at all.
unfoldable pub checks_green : PrStatus → Bool
checks_green s = s.checks_failed == 0 && s.checks_pending == 0

pub data CheckClass : Type 0 where
  check_pass check_fail check_pending : CheckClass

abbrev pub success_conclusions : List String
success_conclusions = "SUCCESS" ∷ "NEUTRAL" ∷ "SKIPPED" ∷ []

-- `classifyCheck`: a StatusContext has a state, a CheckRun a status and a conclusion.
unfoldable pub classify_check : String → String → String → CheckClass
classify_check status conclusion state =
    if not (state == "")
    then if state == "SUCCESS"
      then check_pass
      else if state == "FAILURE" || state == "ERROR"
      then check_fail
      else check_pending
    else if not (status == "COMPLETED")
    then check_pending
    else if contains success_conclusions conclusion
    then check_pass
    else check_fail

pub record Check : Type 0 where
  pub status : String
  pub conclusion : String
  pub state : String

pub record Review : Type 0 where
  pub login : String
  pub state : String
  pub submitted_at : String

pub record PrView : Type 0 where
  pub state : String
  pub review_decision : String
  pub head_ref_oid : String
  pub mergeable : String
  pub merge_state_status : String
  pub checks : List Check
  pub reviews : List Review

-- `decisiveReview`: comments and pending reviews change no reviewer's standing.
unfoldable pub decisive_review : String → Bool
decisive_review state = contains ("APPROVED" ∷ "CHANGES_REQUESTED" ∷ "DISMISSED" ∷ []) state

-- A reviewer's standing: the state and the time of the latest decisive review.
abbrev pub Standing : Type 0
Standing = String × String

-- One round of the loop over the reviews.
unfoldable pub note_review : List (String × Standing) → Review → List (String × Standing)
unfolding decisive_review
note_review latest r =
    if r.login == "" || not (decisive_review r.state)
    then latest
    else elim (lookup r.login latest) [
      | none ↦ insert r.login (r.state, r.submitted_at) latest
      | some cur ↦
          if str_leb cur.1 r.submitted_at
          then insert r.login (r.state, r.submitted_at) latest
          else latest
    ]

unfoldable pub latest_reviews : List (String × Standing) → List Review → List (String × Standing)
latest_reviews latest [] = latest
latest_reviews latest (r ∷ rs) = latest_reviews (note_review latest r) rs

abbrev pub count_approved : List (String × Standing) → ℕ
count_approved [] = 0
count_approved ((login, at) ∷ m) =
    let rest = count_approved m in if at.0 == "APPROVED" then suc rest else rest

unfoldable pub is_class : CheckClass → CheckClass → Bool
is_class check_fail check_fail = true
is_class check_pending check_pending = true
is_class check_pass check_pass = true
is_class _ _ = false

-- The counters of the check loop.
unfoldable pub count_class : CheckClass → List Check → ℕ
unfolding is_class
count_class k [] = 0
count_class k (c ∷ cs) =
    let rest = count_class k cs in
    if is_class k (classify_check c.status c.conclusion c.state) then suc rest else rest

abbrev count_checks : List Check → ℕ
count_checks [] = 0
count_checks (c ∷ cs) = suc (count_checks cs)

-- `PRStatus` after the JSON is decoded.
unfoldable pub fold_status : PrView → PrStatus
fold_status v = record {
  state = v.state;
  checks_total = count_checks v.checks;
  checks_failed = count_class check_fail v.checks;
  checks_pending = count_class check_pending v.checks;
  approved_reviews = count_approved (latest_reviews [] v.reviews);
  review_decision = v.review_decision;
  mergeable = v.mergeable;
  merge_state_status = v.merge_state_status;
  head_sha = v.head_ref_oid;
}
