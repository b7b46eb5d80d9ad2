-- ===== src/Tests/Timing.antt =====
-- Where the deadlines of examples/sync-cancel.rs and examples/async-cancel.rs fall.
use mathlib.Core.Option
use Prim.Native.String.{String}
use tenacious.Prelude.{Option, leb, if◌then◌else◌, pending, ready}
use tenacious.Prelude.{ℕ, ◌+◌, ◌-◌, refl, ◌≡◌, some, Result, err}
use tenacious.Duration.{Duration}
use tenacious.Float.Whole.{whole}
use tenacious.Clock.Virtual.{sync_clock}
use tenacious.Engine.Error.{RetryError}
use tenacious.Engine.Sync.{run}
use tenacious.Engine.Async.{AsyncRetry, into_run}
use tenacious.Clock.{AsyncClock}
use tenacious.Clock.Adapters.{Instants, Timers}
use tenacious.Clock.Adapters.Tokio
use tenacious.Decision.{default_classifier, result_outcome}
use tenacious.Stop.{attempts, after_attempts}
use tenacious.Wait.Strategies.{fixed, fixed_wait}
use tenacious.Engine.State.{StopReason}
use tenacious.Engine.Hooks
use tenacious.Engine.Op.{stateless_op}
use tenacious.Engine.Step.{step}
use tenacious.Engine.Sync.{loop, round, resume}
use tenacious.Engine.Sync.Builder.{
  retry_ext, from_op, from_parts, with_stop, with_wait, with_timeout,
}
use tenacious.Engine.Async.{AsyncRun, Phase, poll, poll_loop, turn}
use tenacious.Engine.Async.Builder as AsyncBuilder
use tenacious.Examples.{with_attempts}
use tenacious.Examples.SyncCancel.{deadline_retry}
use tenacious.Examples.AsyncCancel.{NetworkCall, network_retry, poll_call}
use tenacious.Tests.Fixtures.{fresh, clock_cell}

-- On a clock on which only the waits take time, pattern 1 of sync-cancel.rs makes a fourth attempt.
fourth_attempt :
    Option.map (λ self. (run 4 self fresh).0) (deadline_retry whole (sync_clock clock_cell))
    ≡ some (
        some (
          err (RetryError.exhausted (err "service unavailable")),
          record {
            attempts = 4;
            total_elapsed = 250_000_000;
            total_wait = 250_000_000;
            stop_reason = StopReason.exhausted;
          },
        ))
unfolding deadline_retry retry_ext from_op from_parts attempts after_attempts with_attempts
    with_stop with_wait with_timeout fixed fixed_wait sync_clock run loop round resume step
    stateless_op default_classifier result_outcome Hooks.new
fourth_attempt = refl

-- A runtime whose world is the time, and whose timers are the times at which they are ready.
abbrev instants : Instants ℕ ℕ Duration
instants = record { instant_now = λ t. (t, t); elapsed = λ origin t. (t - origin, t) }

abbrev timers : Timers ℕ Duration ℕ
timers = record {
  after = λ length t. (t + length, t);
  poll = λ timer t. ((if leb timer t then ready tt else pending, timer), t);
}

abbrev clock : AsyncClock ℕ ℕ
clock = record { now = λ t. (t, t); wait_async = timers.after; poll_wait = timers.poll }

abbrev network : Option (AsyncRetry ℕ (NetworkCall ℕ) ℕ String String (Result String String))
network = network_retry timers (λ attempt. "n") instants whole clock (record { origin = 0 })

-- The future of async-cancel.rs when its timers wake it, up to 120 ms: it is at its second call.
abbrev poll_at :
    ℕ
    → AsyncRun ℕ (NetworkCall ℕ) ℕ String String (Result String String)
    → AsyncRun ℕ (NetworkCall ℕ) ℕ String String (Result String String)
poll_at time run = (poll 9 run time).0.1

at_120_ms :
    Option.map
      (λ self.
        (poll_at 120_000_000
          (poll_at 90_000_000 (poll_at 40_000_000 (poll_at 0 (into_run self))))).phase)
      network
    ≡ some (Phase.polling (NetworkCall.awaiting 2 130_000_000))
unfolding network_retry AsyncBuilder.retry_async AsyncBuilder.from_op AsyncBuilder.from_parts
    attempts after_attempts AsyncBuilder.with_stop AsyncBuilder.with_wait AsyncBuilder.with_clock
    fixed fixed_wait Tokio.async_clock into_run poll poll_loop turn poll_call step
    default_classifier result_outcome Hooks.new
at_120_ms = refl
