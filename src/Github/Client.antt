-- ===== src/Github/Client.antt =====
-- internal/github/gh.go, merge.go and status.go: each method of the client by the gh command that it
-- runs. The processes and the decoding of JSON are the host, a parameter; error texts are not kept.
use hounds_ciai.Prelude.{
  ℕ, String, Option, none, some, List, [], ◌∷◌, ◌++◌, ◌==◌, string_eq, if◌then◌else◌,
}
use hounds_ciai.Result.{Result, ok, err, gh_failed}
use hounds_ciai.Engine.Naming.{decimal}
use Prim.Native.String.{◌++◌ as text_append}
use hounds_ciai.Github.{PrStatus, Issue, PrView, fold_status}

pub record Pr : Type 0 where
  pub number : ℕ
  pub url : String
  pub state : String

-- How a command runs in a directory, and what is read of its output, which may be unreadable.
pub record Host (G : Type 0) : Type 0 where
  pub run : (dir : String) → List String → G → Result String × G
  pub read_prs : String → Option (List Pr)
  pub read_issue : String → Option Issue
  pub read_numbers : String → Option (List ℕ)
  pub read_view : String → Option PrView

-- The host's state, and the commands that ran, newest first, each with its directory.
pub record Gh (G : Type 0) : Type 0 where
  pub host : G
  pub ran : List (String × List String)

abbrev pub pr_status_fields : String
pr_status_fields =
    "state,statusCheckRollup,reviewDecision,reviews,mergeable,mergeStateStatus,headRefOid"

-- The arguments of each method's command.
abbrev pub list_prs_args : String → List String
list_prs_args branch = "gh" ∷ "pr" ∷ "list" ∷ "--head" ∷ branch ∷ "--json" ∷ "number,url,state" ∷ []

abbrev pub view_issue_args : ℕ → List String
view_issue_args n = "gh" ∷ "issue" ∷ "view" ∷ decimal n ∷ "--json" ∷ "number,title,body" ∷ []

abbrev pub list_issues_args : String → List String
list_issues_args label = "gh" ∷ "issue" ∷ "list" ∷ "--label" ∷ label ∷ "--json" ∷ "number" ∷ []

abbrev pub remove_label_args : ℕ → String → List String
remove_label_args n label = "gh" ∷ "issue" ∷ "edit" ∷ decimal n ∷ "--remove-label" ∷ label ∷ []

abbrev pub view_pr_args : ℕ → List String
view_pr_args n = "gh" ∷ "pr" ∷ "view" ∷ decimal n ∷ "--json" ∷ pr_status_fields ∷ []

abbrev pub merge_args : ℕ → List String
merge_args n = "gh" ∷ "pr" ∷ "merge" ∷ decimal n ∷ "--squash" ∷ []

abbrev pub delete_branch_args : String → List String
delete_branch_args branch =
    "gh"
    ∷ "api"
    ∷ "--method"
    ∷ "DELETE"
    ∷ text_append "repos/{owner}/{repo}/git/refs/heads/" branch
    ∷ []

abbrev pub close_issue_args : ℕ → String → List String
close_issue_args n comment =
    let args = "gh" ∷ "issue" ∷ "close" ∷ decimal n ∷ "--reason" ∷ "completed" ∷ [] in
    if comment == "" then args else args ++ ("--comment" ∷ comment ∷ [])

-- What is read of an output that came.
unfoldable pub read_output : {A : Type 0} → (String → Option A) → Result String → Result A
read_output read (err e) = err gh_failed
read_output read (ok out) = elim (read out) [ none ↦ err gh_failed | some a ↦ ok a ]

abbrev pub ignore : String → Option (Unit {0})
ignore out = some tt

abbrev pub first_pr : List Pr → Option Pr
first_pr [] = none
first_pr (pr ∷ prs) = some pr

unfoldable pub map_ok : {A B : Type 0} → (A → B) → Result A → Result B
map_ok f (ok a) = ok (f a)
map_ok f (err e) = err e

module _ {G : Type 0} (h : Host G) (dir : String) where
  -- One command, with what is read of its output.
  unfoldable pub run_gh : {A : Type 0} → List String → (String → Option A) → Gh G → Result A × Gh G
  unfolding read_output
  run_gh args read s =
      let (r, g) = h.run dir args s.host in
      (read_output read r, record { host = g; ran = (dir, args) ∷ s.ran })

  unfoldable pub find_open_pr : String → Gh G → Result (Option Pr) × Gh G
  unfolding run_gh map_ok
  find_open_pr branch s =
      let (r, s') = run_gh (list_prs_args branch) h.read_prs s in (map_ok first_pr r, s')

  unfoldable pub view_issue : ℕ → Gh G → Result Issue × Gh G
  unfolding run_gh
  view_issue n = run_gh (view_issue_args n) h.read_issue

  unfoldable pub list_issues : String → Gh G → Result (List ℕ) × Gh G
  unfolding run_gh
  list_issues label = run_gh (list_issues_args label) h.read_numbers

  unfoldable pub drop_label : ℕ → String → Gh G → Result (Unit {0}) × Gh G
  unfolding run_gh
  drop_label n label = run_gh (remove_label_args n label) ignore

  unfoldable pub view_pr_status : ℕ → Gh G → Result PrStatus × Gh G
  unfolding run_gh map_ok
  view_pr_status n s =
      let (r, s') = run_gh (view_pr_args n) h.read_view s in (map_ok fold_status r, s')

  unfoldable pub merge_pr : ℕ → Gh G → Result (Unit {0}) × Gh G
  unfolding run_gh
  merge_pr n = run_gh (merge_args n) ignore

  unfoldable pub drop_remote_branch : String → Gh G → Result (Unit {0}) × Gh G
  unfolding run_gh
  drop_remote_branch branch = run_gh (delete_branch_args branch) ignore

  unfoldable pub complete_issue : ℕ → String → Gh G → Result (Unit {0}) × Gh G
  unfolding run_gh
  complete_issue n comment = run_gh (close_issue_args n comment) ignore
