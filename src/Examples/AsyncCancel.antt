-- ===== src/Examples/AsyncCancel.antt =====
-- examples/async-cancel.rs: a flaky call under a retry that may be dropped. The three ways to drop it
-- (`tokio::time::timeout`, and `tokio::select!` with a token or a channel) are another package's: a
-- dropped future is one that is polled no more.
pub mod Undisturbed
use mathlib.Core.Option
use Prim.Native.String.{String, ◌++◌}
use tenacious.Prelude.{ℕ, Option, Result, err, M, pure, ◌>>=◌, Poll, pending, ready}
use tenacious.Duration.{Duration}
use tenacious.Float.{Float}
use tenacious.Decision.{result_outcome}
use tenacious.Stop.{attempts, after_attempts}
use tenacious.Wait.Strategies.{fixed, fixed_wait}
use tenacious.Clock.{AsyncClock}
use tenacious.Clock.Adapters.{Instants, Timers}
use tenacious.Clock.Adapters.Tokio.{TokioClock, async_clock}
use tenacious.Engine.Async.{AsyncRetry}
use tenacious.Engine.Async.Builder.{retry_async, with_stop, with_wait, with_clock}

abbrev pub Reply : Type 0
Reply = Result String String

-- The future of `flaky_network_call`, before its first poll and at its `await`. It is not polled
-- again once it was ready.
pub data NetworkCall (Timer : Type 0) : Type 0 where
  created : ℕ → NetworkCall Timer
  awaiting : ℕ → Timer → NetworkCall Timer

-- `display` is the `Display` of a `u32`.
module _ (display : ℕ → String) where
  -- `format!("attempt {attempt}: connection refused")`
  unfoldable pub refusal : ℕ → String
  refusal attempt = "attempt " ++ display attempt ++ ": connection refused"

-- `tokio::time::sleep` is `timers.after`.
module _ {World Timer : Type 0} (timers : Timers World Duration Timer) (display : ℕ → String) where
  -- What a poll of the timer makes of the call.
  abbrev pub on_timer : ℕ → Poll (Unit {0}) × Timer → Poll Reply × NetworkCall Timer
  on_timer attempt (pending, timer) = (pending, awaiting attempt timer)
  on_timer attempt (ready _, timer) =
      (ready (err (refusal display attempt)), awaiting attempt timer)

  unfoldable pub poll_call : NetworkCall Timer → M World (Poll Reply × NetworkCall Timer)
  unfolding refusal
  poll_call (created attempt) = do
    timer ← timers.after 40_000_000
    polled ← timers.poll timer
    pure (on_timer attempt polled)
  poll_call (awaiting attempt timer) = do polled ← timers.poll timer; pure (on_timer attempt polled)

  module _ {Instant : Type 0} (instants : Instants World Instant Duration) (f : Float)
      (system : AsyncClock World Timer) (origin : TokioClock Instant) where
    -- The future of all three patterns: 10 attempts, and 50 ms between them. `origin` is what
    -- `TokioClock::new` made.
    unfoldable pub network_retry :
        Option (AsyncRetry World (NetworkCall Timer) Timer String String Reply)
    unfolding poll_call retry_async attempts after_attempts with_stop with_wait with_clock fixed
        fixed_wait async_clock Option.bind
    network_retry =
        Option.map (λ self. with_clock (async_clock instants timers origin) self)
          (Option.map (λ self. with_wait (fixed_wait (fixed 50_000_000)) self)
            (Option.bind
              (retry_async f system poll_call result_outcome
                (λ state. pure (created state.attempt)))
              (λ self. Option.map (λ stop. with_stop (after_attempts stop) self) (attempts 10))))
