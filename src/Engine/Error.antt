-- ===== src/Engine/Error.antt =====
-- src/engine/error.rs: the error of a loop that ends without a `Return`.
pub mod Texts
use Prim.Native.String.{String, ◌++◌}
use tenacious.Prelude.{Infallible, ControlFlow, Option, none, some, Result, ok, err}
use tenacious.Engine.State.{StopReason}

-- Each case holds its `last`.
pub data RetryError (A O : Type 0) : Type 0 where
  aborted : A → RetryError A O
  exhausted : O → RetryError A O

module _ {A O : Type 0} where
  unfoldable pub stop_reason : RetryError A O → StopReason
  stop_reason (RetryError.aborted _) = StopReason.aborted
  stop_reason (RetryError.exhausted _) = StopReason.exhausted

  unfoldable pub last : RetryError A O → Option O
  last (RetryError.exhausted o) = some o
  last (RetryError.aborted _) = none

  unfoldable into_last : RetryError A O → Option O
  into_last (RetryError.exhausted o) = some o
  into_last (RetryError.aborted _) = none

-- `Result::err`
abbrev err_of : {T E : Type 0} → Result T E → Option E
err_of (ok _) = none
err_of (err e) = some e

module _ {T E : Type 0} where
  unfoldable last_error : RetryError E (Result T E) → Option E
  last_error (RetryError.aborted e) = some e
  last_error (RetryError.exhausted o) = err_of o

  unfoldable into_last_error : RetryError E (Result T E) → Option E
  into_last_error (RetryError.aborted e) = some e
  into_last_error (RetryError.exhausted o) = err_of o

  -- `source` of `std::error::Error`: the underlying error, if one is at hand.
  unfoldable pub source : RetryError E (Result T E) → Option E
  source (RetryError.aborted e) = some e
  source (RetryError.exhausted (err e)) = some e
  source (RetryError.exhausted (ok _)) = none

  -- `Display` for a `Result` outcome, with the `Display` of the error.
  unfoldable pub display_result : (E → String) → RetryError E (Result T E) → String
  display_result display (RetryError.aborted last) = "aborted: " ++ display last
  display_result display (RetryError.exhausted (err e)) = "retries exhausted: " ++ display e
  display_result display (RetryError.exhausted (ok _)) = "retries exhausted"

-- `Display` for an `Option` outcome, which cannot be aborted.
display_option : {T : Type 0} → RetryError Infallible (Option T) → String
display_option (RetryError.aborted last) = absurd last
display_option (RetryError.exhausted _) = "retries exhausted"

-- `Display` for a `ControlFlow` outcome, which cannot be aborted.
display_control_flow : {B C : Type 0} → RetryError Infallible (ControlFlow B C) → String
display_control_flow (RetryError.aborted last) = absurd last
display_control_flow (RetryError.exhausted _) = "retries exhausted"
