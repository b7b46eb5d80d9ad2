-- ===== src/Examples/TestingWithVirtualClock.antt =====
-- examples/testing-with-virtual-clock.rs: code that takes its clock as a parameter.
pub mod Budget
pub mod Schedule
use mathlib.Core.Option
use Prim.Native.String.{String}
use tenacious.Prelude.{ℕ, Option, Result, M}
use tenacious.Duration.{Duration}
use tenacious.Float.{Float}
use tenacious.Decision.{result_outcome}
use tenacious.Stop.{never}
use tenacious.Wait.Strategies.{exponential, exponential_wait}
use tenacious.Wait.Composition.{cap_at, capped_wait}
use tenacious.Clock.{SyncClock}
use tenacious.Engine.Error.{RetryError}
use tenacious.Engine.Sync.{Retry}
use tenacious.Engine.Sync.Builder.{retry, with_stop, with_wait, with_clock, with_timeout}
use tenacious.Examples.{call_built}

-- 100 ms, 5 s and 400 ms.
abbrev pub initial_backoff : Duration
initial_backoff = 100_000_000

abbrev pub backoff_cap : Duration
backoff_cap = 5_000_000_000

abbrev pub budget : Duration
budget = 400_000_000

module _ {World : Type 0} (f : Float) (system : SyncClock World)
    (operation : M World (Result ℕ String)) (clock : SyncClock World) where
  -- The builder of `fetch_with_retries`.
  unfoldable pub fetch_retry : Option (Retry World ℕ String (Result ℕ String))
  unfolding retry with_wait with_stop with_clock with_timeout
  fetch_retry =
      Option.map (λ self. with_timeout budget self)
        (Option.map (λ self. with_clock clock self)
          (Option.map (λ self. with_stop never self)
            (Option.map
              (λ self.
                with_wait
                  (capped_wait
                    (cap_at (exponential_wait f (exponential f initial_backoff)) backoff_cap))
                  self)
              (retry f system result_outcome (λ _. operation)))))

  unfoldable fetch_with_retries :
      ℕ → M World (Option (Result ℕ (RetryError String (Result ℕ String))))
  unfolding fetch_retry
  fetch_with_retries fuel = call_built fuel fetch_retry
