-- ===== src/State.antt =====
-- src/state.rs: the context of an attempt, without its outcome.
use tenacious.Prelude.{ℕ, Option, none}
use tenacious.Duration.{Duration}

-- `attempt` is a `u32`, from 1 on.
pub record RetryState : Type 0 where
  pub attempt : ℕ
  pub elapsed : Duration
  pub previous_delay : Option Duration

-- The `debug_assert` of `attempt >= 1` is not part of a release build.
unfoldable pub for_attempt : ℕ → RetryState
for_attempt attempt = record { attempt = attempt; elapsed = 0; previous_delay = none }

unfoldable pub with_elapsed : Duration → RetryState → RetryState
with_elapsed elapsed self = record self { elapsed = elapsed }

unfoldable pub with_previous_delay : Option Duration → RetryState → RetryState
with_previous_delay previous_delay self = record self { previous_delay = previous_delay }
