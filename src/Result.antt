-- ===== src/Result.antt =====
-- Errors as values. Go's error texts are not modelled; each constructor names a class of failures
-- that the code tells apart, or that a theorem speaks of.
use hounds_ciai.Prelude.{◌≡◌, refl, ◌⊎◌, inl, inr}

pub data Err : Type 0 where
  -- store.ErrNotFound, and a failed statement (a closed or locked database, a cancelled context).
  not_found db_failed : Err
  -- errSuspended: a control signal of a parked merge-gate wait, not a failure.
  suspended : Err
  -- A failed call of gh, of the execution backend, or of the file system.
  gh_failed backend_failed file_failed : Err
  -- The drive's context is done.
  ctx_done : Err
  -- The event stream closed before the agent settled.
  stream_closed : Err
  -- A workflow that the interpreter cannot follow: an undeclared name, an unsupported type, a
  -- missing transition, a duration that does not parse, a snapshot that does not validate.
  undeclared unsupported no_transition bad_duration bad_snapshot : Err
  -- A verdict file that is absent, malformed, or outside the declared verdicts.
  no_verdict bad_verdict : Err
  -- A merge action with no PR, or one that GitHub does not confirm.
  no_pr not_confirmed : Err
  -- No result yet: the wait has seen all the signals there are, or the loop its share of rounds.
  still_waiting : Err

pub data Result {ℓ} (A : Type ℓ) : Type ℓ where
  ok : A → Result A
  err : Err → Result A

pub Result-cases {ℓ} :
    {A : Type ℓ} (r : Result A) → ((a : A) × (r ≡ ok a)) ⊎ ((e : Err) × (r ≡ err e))
Result-cases (ok a) = inl (a, refl)
Result-cases (err e) = inr (e, refl)
