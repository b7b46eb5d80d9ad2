-- ===== src/Tests/Texts.antt =====
-- The texts of errors at concrete errors.
use Prim.Native.String.{String}
use tenacious.Prelude.{ℕ, Result, err, ◌≡◌, refl}
use tenacious.Engine.Error.{RetryError, display_result}

abbrev show : ℕ → String
show n = "boom"

abbrev exhausted : RetryError ℕ (Result ℕ ℕ)
exhausted = RetryError.exhausted (err 3)

exhausted_text : display_result show exhausted ≡ "retries exhausted: boom"
unfolding display_result
exhausted_text = refl
