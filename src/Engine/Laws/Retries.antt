-- ===== src/Engine/Laws/Retries.antt =====
-- The retry cap of a state.
use hounds_ciai.Prelude.{
  ℕ, suc, String, ◌≡◌, refl, ◌∙◌, ap, Option, none, some, List, [], ◌∷◌, ◌==◌, string_eq, leb,
  if◌then◌else◌, Bool-cases, inl, inr, ==_self,
}
use hounds_ciai.Prelude.Maps.{lookup, lookup_or, insert}
use hounds_ciai.Result.{Result, ok}
use hounds_ciai.Config.Types.{State, Transition}
use hounds_ciai.Store.{Task}
use hounds_ciai.Engine.Monad.{
  World, Engine, Sys, pure, branch, get_task, set_task, or_raise, continue, ◌>>=◌,
}
use hounds_ciai.Engine.Lookup.{find_event_transition}
use hounds_ciai.Engine.Spawning.{count_retry, bump_retry, check_retry_cap}

pub lookup_or-insert :
    (k : String) (v d : ℕ) (m : List (String × ℕ)) → lookup_or k d (insert k v m) ≡ v
lookup_or-insert k v d [] = rw (==_self k) refl
lookup_or-insert k v d ((j, w) ∷ m) = elim (Bool-cases (j == k)) [
  | inl h ↦ rw h (rw (==_self k) refl)
  | inr h ↦ rw h (rw h (lookup_or-insert k v d m))
]

module _ {W : Type 0} (ext : World W) (e : Engine) (st : State) (t : Transition) where
  abbrev retries : Task → ℕ
  retries task = lookup_or task.current_state 0 task.retry_counts

  capped :
      (limit count : ℕ) (s : Sys W)
      → find_event_transition st "retry_exhausted" ≡ some t
      → count_retry ext st limit count s ≡ (ok (if leb count limit then none else some t.to), s)
  unfolding count_retry branch or_raise pure ◌>>=◌ continue
  capped limit count s f = elim (Bool-cases (leb count limit)) [
    | inl h ↦ rw h refl
    | inr h ↦ rw (h, f) refl
  ]

  -- In a state with a retry cap, and with an edge for its exhaustion, each check counts one retry more
  -- of that state, and gives up to that edge's target exactly when the count is then above the cap.
  pub check_retry_cap_lem :
      (limit : ℕ) (s : Sys W)
      → lookup s.task.current_state e.wf.policies.retry_caps ≡ some limit
      → find_event_transition st "retry_exhausted" ≡ some t
      → (check_retry_cap ext e st s).0
          ≡ ok (if leb (suc (retries s.task)) limit then none else some t.to)
        × (retries (check_retry_cap ext e st s).1.task ≡ suc (retries s.task))
  unfolding check_retry_cap get_task ◌>>=◌ continue bump_retry set_task
  check_retry_cap_lem limit s h f =
      let counted = record s {
        task = record s.task {
          retry_counts = insert s.task.current_state (suc (retries s.task)) s.task.retry_counts;
        };
      } in
      let r = capped limit (suc (retries s.task)) counted f in
      (
        rw h (ap (λ (x : Result (Option String) × Sys W). x.0) r),
        rw h (
            ap (λ (x : Result (Option String) × Sys W). retries x.1.task) r
            ∙ lookup_or-insert s.task.current_state (suc (retries s.task)) 0 s.task.retry_counts),
      )
