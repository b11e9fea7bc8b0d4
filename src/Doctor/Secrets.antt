-- ===== src/Doctor/Secrets.antt =====
-- internal/doctor: the values of the environment's variables, and the preflight's report.
use hounds_ciai.Prelude.{String, Bool, ◌≡◌, List, [], ◌∷◌, string_eq}
use hounds_ciai.Doctor.Outside.{Env, with_defaults, Host}
use hounds_ciai.Doctor.{PreflightCheck}

module _ {W : Type 0} (host : Host W) (include : Bool) (env : Env) (g : String → String) where
  abbrev other : Env
  other = record (with_defaults env) { getenv = g }

  -- Checks that run alike in the two environments.
  abbrev Alike : List (PreflightCheck W) → Type 0
  Alike [] = Unit
  Alike (c ∷ cs) = (c.run other ≡ c.run (with_defaults env)) × Alike cs
