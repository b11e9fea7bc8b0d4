-- ===== src/Github/Reviews.antt =====
-- What the gates read of a pull request: its checks and its reviewers' standing.
use hounds_ciai.Prelude.{
  ◌++◌, ◌≢◌, ◌⊎◌, ==_ne, ==_self, Option-cases, some, ℕ, suc, String, Bool, true, false, not, ◌&&◌,
  ◌||◌, ==_true, ◌≡◌, refl, ◌∙◌, ap, List, [], ◌∷◌, ◌==◌, string_eq, nat_eq, if◌then◌else◌, all,
  arith, Bool-cases, inl, inr,
}
use hounds_ciai.Prelude.Maps.{lookup, insert, lookup-insert}
use hounds_ciai.Prelude.Sorting.{str_leb}
use hounds_ciai.Github.{
  PrView, CheckClass, check_pass, check_fail, check_pending, Check, Review, Standing, checks_green,
  classify_check, decisive_review, note_review, latest_reviews, is_class, count_class, fold_status,
}

note_review-other :
    (latest : List (String × Standing)) (r : Review)
    → decisive_review r.state ≡ false
    → note_review latest r ≡ latest
unfolding note_review
note_review-other latest r h = rw h (ground arith)

-- A comment, or a review that is not submitted yet.
abbrev pub is_advisory : Review → Bool
is_advisory r = r.state == "COMMENTED" || r.state == "PENDING"

advisory_indecisive : (r : Review) → is_advisory r ≡ true → decisive_review r.state ≡ false
unfolding decisive_review
advisory_indecisive r h = elim (Bool-cases (r.state == "COMMENTED")) [
  | inl e ↦ rw (==_true r.state "COMMENTED" e) refl
  | inr e ↦
      let p : (r.state == "PENDING") ≡ true = ground (arith, h, e) in
      rw (==_true r.state "PENDING" p) refl
]

-- An approval, a request for changes, or a dismissal.
abbrev pub Decisive : Review → Type 0
Decisive r = (r.state ≡ "APPROVED") ⊎ ((r.state ≡ "CHANGES_REQUESTED") ⊎ (r.state ≡ "DISMISSED"))

Decisive-decisive_review : (r : Review) → Decisive r → decisive_review r.state ≡ true
unfolding decisive_review
Decisive-decisive_review r (inl e) = rw e refl
Decisive-decisive_review r (inr (inl e)) = rw e refl
Decisive-decisive_review r (inr (inr e)) = rw e refl

note_review-newest :
    (m : List (String × Standing)) (r : Review)
    → r.login ≢ ""
    → decisive_review r.state ≡ true
    → ((cur : Standing) → lookup r.login m ≡ some cur → str_leb cur.1 r.submitted_at ≡ true)
    → lookup r.login (note_review m r) ≡ some (r.state, r.submitted_at)
unfolding note_review
note_review-newest m r named counts newest =
    let put : lookup r.login (insert r.login (r.state, r.submitted_at) m)
        ≡ some (r.state, r.submitted_at) =
      lookup-insert r.login r.login (r.state, r.submitted_at) m ∙ rw (==_self r.login) refl in
    rw (==_ne r.login "" named, counts)
      (elim (Option-cases (lookup r.login m)) [
        | inl e ↦ rw e put
        | inr (cur, e) ↦ rw (e, newest cur e) put
      ])

-- A review that leaves the standing of the reviewer as it is.
abbrev pub is_aside : String → Review → Bool
is_aside login r = is_advisory r || not (r.login == login)

note_review-ne :
    (m : List (String × Standing)) (r : Review) (login : String)
    → (r.login == login) ≡ false
    → lookup login (note_review m r) ≡ lookup login m
unfolding note_review
note_review-ne m r login other =
    let put : lookup login (insert r.login (r.state, r.submitted_at) m) ≡ lookup login m =
      lookup-insert login r.login (r.state, r.submitted_at) m ∙ rw other refl in
    elim (Bool-cases (r.login == "" || not (decisive_review r.state))) [
      | inl e ↦ rw e refl
      | inr e ↦ rw e (elim (Option-cases (lookup r.login m)) [
        | inl q ↦ rw q put
        | inr (cur, q) ↦ rw q (elim (Bool-cases (str_leb cur.1 r.submitted_at)) [
          | inl l ↦ rw l put
          | inr l ↦ rw l refl
        ])
      ])
    ]

note_review-aside :
    (m : List (String × Standing)) (r : Review) (login : String)
    → is_aside login r ≡ true
    → lookup login (note_review m r) ≡ lookup login m
note_review-aside m r login h = elim (Bool-cases (is_advisory r)) [
  | inl e ↦ ap (lookup login) (note_review-other m r (advisory_indecisive r e))
  | inr e ↦ note_review-ne m r login (ground (arith, h, e))
]

latest_reviews-aside :
    (m : List (String × Standing)) (login : String) (rs : List Review)
    → all (is_aside login) rs ≡ true
    → lookup login (latest_reviews m rs) ≡ lookup login m
unfolding latest_reviews
latest_reviews-aside m login [] h = refl
latest_reviews-aside m login (r ∷ rs) h =
    latest_reviews-aside (note_review m r) login rs (ground (arith, h))
    ∙ note_review-aside m r login (ground (arith, h))

-- A reviewer's standing is the last review that counts: after an approval, a request for changes or a
-- dismissal by a named reviewer, no older than the reviewer's standing until then, it is that review's
-- state and time, whatever comments and pending reviews, and reviews of others, come before and after.
pub latest_reviews-last :
    (latest : List (String × Standing)) (rs : List Review) (r : Review) (later : List Review)
    → r.login ≢ ""
    → Decisive r
    → ((cur : Standing)
        → lookup r.login (latest_reviews latest rs) ≡ some cur
        → str_leb cur.1 r.submitted_at ≡ true)
    → all (is_aside r.login) later ≡ true
    → lookup r.login (latest_reviews latest (rs ++ (r ∷ later))) ≡ some (r.state, r.submitted_at)
unfolding latest_reviews
latest_reviews-last latest [] r later named counts newest aside =
    latest_reviews-aside (note_review latest r) r.login later aside
    ∙ note_review-newest latest r named (Decisive-decisive_review r counts) newest
latest_reviews-last latest (q ∷ rs) r later named counts newest aside =
    latest_reviews-last (note_review latest q) rs r later named counts newest aside

green_step :
    (k : CheckClass) (failed pending : ℕ)
    → ((if is_class check_fail k then suc failed else failed) == 0
        && (if is_class check_pending k then suc pending else pending) == 0)
      ≡ (is_class check_pass k && (failed == 0 && pending == 0))
unfolding is_class
green_step check_pass failed pending = refl
green_step check_fail failed pending = ground arith
green_step check_pending failed pending = ground arith

-- The checks of a pull request are green exactly when each of them passes; one with no checks is green.
pub checks_green-fold_status :
    (v : PrView)
    → checks_green (fold_status v)
      ≡ all
          (λ (c : Check). is_class check_pass (classify_check c.status c.conclusion c.state))
          v.checks
unfolding checks_green fold_status count_class
checks_green-fold_status v = green v.checks
  where
    green :
        (cs : List Check)
        → (count_class check_fail cs == 0 && count_class check_pending cs == 0)
          ≡ all
              (λ (c : Check). is_class check_pass (classify_check c.status c.conclusion c.state))
              cs
    green [] = refl
    green (c ∷ cs) =
        green_step (classify_check c.status c.conclusion c.state) (count_class check_fail cs)
          (count_class check_pending cs)
        ∙ ap (λ b. is_class check_pass (classify_check c.status c.conclusion c.state) && b)
            (green cs)
