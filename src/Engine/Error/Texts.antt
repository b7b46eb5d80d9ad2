-- ===== src/Engine/Error/Texts.antt =====
-- How the texts of src/engine/error.rs and of src/engine/state.rs agree.
use Prim.Native.String.{String, ◌++◌}
use text.Mathlib.TextLemmas.{append_assoc}
use tenacious.Prelude.{Option, none, some, Result, ok, err, ◌≡◌, refl}
use tenacious.Engine.State.{display}
use tenacious.Engine.Error.{RetryError, stop_reason, source, display_result}

-- The underlying error, behind a colon.
abbrev cause : {E : Type 0} → (E → String) → Option E → String
cause show none = ""
cause show (some e) = ": " ++ show e

-- The text of an error of a `Result` outcome is the text of its stop reason, and then, when `source`
-- gives an underlying error, a colon and the text of that error.
display_result-eq :
    {T E : Type 0} (show : E → String) (error : RetryError E (Result T E))
    → display_result show error ≡ display (stop_reason error) ++ cause show (source error)
unfolding display_result display stop_reason source
display_result-eq show (RetryError.aborted last) = append_assoc "aborted" ": " (show last)
display_result-eq show (RetryError.exhausted (err e)) =
    append_assoc "retries exhausted" ": " (show e)
display_result-eq show (RetryError.exhausted (ok value)) = refl
