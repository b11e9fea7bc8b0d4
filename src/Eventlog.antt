-- ===== src/Eventlog.antt =====
-- internal/eventlog/eventlog.go: a handler of log records that hands each to several others. A sink is
-- what it wants, by level, and what its write answers; its writes are a list, newest first.
use hounds_ciai.Prelude.{
  ℕ, Bool, true, false, not, ◌≡◌, refl, List, [], ◌∷◌, if◌then◌else◌, any, leb, map, ap,
}

-- A record of a level, and a sink with its least level.
pub record Sink (R : Type 0) : Type 0 where
  pub least : ℕ
  pub works : R → Bool
  pub written : List R

module _ {R : Type 0} (level : R → ℕ) where
  unfoldable pub enabled : ℕ → Sink R → Bool
  enabled l s = leb s.least l

  -- `tee.Enabled`: some sink wants the level.
  unfoldable pub tee_enabled : ℕ → List (Sink R) → Bool
  unfolding enabled
  tee_enabled l ss = any (enabled l) ss

  -- One round of `tee.Handle`: the sink after it, and whether its write failed.
  unfoldable pub hand : R → Sink R → Sink R × Bool
  unfolding enabled
  hand r s =
      if enabled (level r) s
      then (record s { written = r ∷ s.written }, not (s.works r))
      else (s, false)

  -- `tee.Handle`: every sink is tried, and a failure is told if there was one.
  unfoldable pub tee_handle : R → List (Sink R) → List (Sink R) × Bool
  unfolding hand
  tee_handle r [] = ([], false)
  tee_handle r (s ∷ ss) =
      let (s', failed) = hand r s in
      let (rest, later) = tee_handle r ss in (s' ∷ rest, if failed then true else later)

  -- A sink that fails keeps no record from the others: each is left as if it had been handed the
  -- record alone.
  pub tee_handle_all :
      (r : R) (ss : List (Sink R)) → (tee_handle r ss).0 ≡ map (λ s. (hand r s).0) ss
  unfolding tee_handle
  tee_handle_all r [] = refl
  tee_handle_all r (s ∷ ss) =
      ap (λ (rest : List (Sink R)). (hand r s).0 ∷ rest) (tee_handle_all r ss)
