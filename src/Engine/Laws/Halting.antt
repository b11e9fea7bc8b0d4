-- ===== src/Engine/Laws/Halting.antt =====
-- The drive of a task that rests.
use hounds_ciai.Prelude.{ℕ, suc, true, ◌≡◌, refl}
use hounds_ciai.Result.{ok}
use hounds_ciai.Engine.Monad.{World, Engine, Sys, branch, pure, get_task, caught, continue, ◌>>=◌}
use hounds_ciai.Engine.Lookup.{is_halt}
use hounds_ciai.Engine.Driving.{drive, drive_loop, halt, reclassify_cancel}

-- Driving a task whose state halts does nothing: no call of the world, no write, no notification; it
-- answers the state.
pub drive_halted :
    {W : Type 0} (ext : World W) (e : Engine) (rounds : ℕ) (s : Sys W)
    → is_halt e s.task.current_state ≡ true
    → drive ext e (suc rounds) s ≡ (ok s.task.current_state, s)
unfolding drive drive_loop halt branch caught reclassify_cancel get_task pure continue ◌>>=◌
drive_halted ext e rounds s h = rw h refl
