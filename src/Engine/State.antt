-- ===== src/Engine/State.antt =====
-- src/engine/state.rs: what the hooks see.
use Prim.Native.String.{String}
use tenacious.Prelude.{ℕ}
use tenacious.Duration.{Duration}

pub data StopReason : Type 0 where
  returned aborted exhausted : StopReason

-- `Display` of the reason.
unfoldable pub display : StopReason → String
display StopReason.returned = "returned"
display StopReason.aborted = "aborted"
display StopReason.exhausted = "retries exhausted"

-- Passed to `after_attempt`, before the outcome is classified.
pub record AttemptState (O : Type 0) : Type 0 where
  pub attempt : ℕ
  pub elapsed : Duration
  pub outcome : O

unfoldable pub new : {O : Type 0} → ℕ → Duration → O → AttemptState O
new attempt elapsed outcome = record { attempt = attempt; elapsed = elapsed; outcome = outcome }

-- Passed to `on_exit`. The fields are the attempt, the elapsed time, and the payload.
pub data Exit (R A O : Type 0) : Type 0 where
  returned : ℕ → Duration → R → Exit R A O
  aborted : ℕ → Duration → A → Exit R A O
  exhausted : ℕ → Duration → O → Exit R A O

module _ {R A O : Type 0} where
  unfoldable pub attempt : Exit R A O → ℕ
  attempt (Exit.returned n _ _) = n
  attempt (Exit.aborted n _ _) = n
  attempt (Exit.exhausted n _ _) = n

  unfoldable elapsed : Exit R A O → Duration
  elapsed (Exit.returned _ e _) = e
  elapsed (Exit.aborted _ e _) = e
  elapsed (Exit.exhausted _ e _) = e

  unfoldable pub stop_reason : Exit R A O → StopReason
  stop_reason (Exit.returned _ _ _) = StopReason.returned
  stop_reason (Exit.aborted _ _ _) = StopReason.aborted
  stop_reason (Exit.exhausted _ _ _) = StopReason.exhausted
