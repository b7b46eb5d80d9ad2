-- ===== src/Examples.antt =====
-- examples/: programs that use the crate. Their `main`s run them on fixed inputs and print.
pub mod Script
pub mod Plain
pub mod CustomOutcome
pub mod PollingTerminalFailure
pub mod SyncCancel
pub mod TestingWithVirtualClock
pub mod BasicRetry
pub mod HooksAndStats
pub mod AsyncPolling
pub mod AsyncCancel
use mathlib.Core.Option
use tenacious.Prelude.{ℕ, Option, none, some, Result, M, pure}
use tenacious.Stop.{attempts, after_attempts}
use tenacious.Engine.Error.{RetryError}
use tenacious.Engine.Sync.{Retry, call}
use tenacious.Engine.Sync.Builder.{with_stop}

module _ {World R A O : Type 0} where
  -- `.stop(stop::attempts(max))`, where `none` is a panic of `attempts`, here or earlier.
  unfoldable pub with_attempts : ℕ → Option (Retry World R A O) → Option (Retry World R A O)
  unfolding attempts after_attempts with_stop
  with_attempts max none = none
  with_attempts max (some self) =
      Option.map (λ stop. with_stop (after_attempts stop) self) (attempts max)

  -- `.call()`, with fuel for the loop. `none` is a panic, or means that the fuel ran out.
  unfoldable pub call_built :
      ℕ → Option (Retry World R A O) → M World (Option (Result R (RetryError A O)))
  call_built fuel none = pure none
  call_built fuel (some self) = call fuel self
