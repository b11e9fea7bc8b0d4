-- ===== src/Engine/Naming.antt =====
-- internal/engine/engine.go: the deterministic names of a task and its branch. `%d` is written out.
use hounds_ciai.Prelude.{ℕ, zero, suc, ◌/◌, ◌%◌, String, ltb, if◌then◌else◌}
use Prim.Native.String.{◌++◌ as text_append}

-- The decimal digit, for 0 to 9.
digit_text : ℕ → String
digit_text zero = "0"
digit_text (suc zero) = "1"
digit_text (suc (suc zero)) = "2"
digit_text (suc (suc (suc zero))) = "3"
digit_text (suc (suc (suc (suc zero)))) = "4"
digit_text (suc (suc (suc (suc (suc zero))))) = "5"
digit_text (suc (suc (suc (suc (suc (suc zero)))))) = "6"
digit_text (suc (suc (suc (suc (suc (suc (suc zero))))))) = "7"
digit_text (suc (suc (suc (suc (suc (suc (suc (suc zero)))))))) = "8"
digit_text _ = "9"

-- The digits of `n` before those in `acc`; a number has fewer digits than one more than itself.
digits_from : ℕ → ℕ → String → String
unfolding digit_text
digits_from zero n acc = acc
digits_from (suc fuel) n acc =
    let acc' = text_append (digit_text (n % 10)) acc in
    let rest = digits_from fuel (n / 10) acc' in if ltb n 10 then acc' else rest

unfoldable pub decimal : ℕ → String
unfolding digits_from
decimal n = digits_from (suc n) n ""

-- `TaskID` and `branchName`.
unfoldable pub task_id : ℕ → String
task_id issue = text_append "issue-" (decimal issue)

unfoldable pub branch_name : ℕ → String
branch_name issue = text_append "agent/issue-" (decimal issue)
