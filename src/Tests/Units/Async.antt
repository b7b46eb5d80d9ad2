-- ===== src/Tests/Units/Async.antt =====
-- The tests of src/engine/async_engine.rs. Their operations' futures are `async` blocks without an
-- `await`: a block is its outcome, and is ready when it is polled.
use mathlib.Core.Option
use Prim.Native.String.{String}
use tenacious.Prelude.{
  Infallible, false, ℕ, ◌≡◌, refl, Option, none, some, Result, ok, err, M, pure, Poll, ready, leb,
  if◌then◌else◌,
}
use tenacious.Duration.{Duration}
use tenacious.Float.Whole.{whole}
use tenacious.Predicate.{ok_when}
use tenacious.Decision
use tenacious.Decision.{
  Outcome, default_classifier, result_outcome, verdict_into, decision_into, closure_classifier,
}
use tenacious.Stop.{attempts, after_attempts}
use tenacious.Wait.Strategies.{fixed, fixed_wait}
use tenacious.Clock.{AsyncClock}
use tenacious.Clock.Virtual.{VirtualWait, async_clock}
use tenacious.Engine.Hooks.{Hook, new, hook_chain, chain_on_exit}
use tenacious.Engine.Op.{RetryOp}
use tenacious.Engine.State.{StopReason, Exit, stop_reason}
use tenacious.Engine.Stats.{RetryStats}
use tenacious.Engine.Error.{RetryError}
use tenacious.Engine.Step.{step}
use tenacious.Engine.Sync.{Finished}
use tenacious.Engine.Async.WithStats
use tenacious.Engine.Async.WithStats.{with_stats}
use tenacious.Engine.Async.{AsyncRetry, into_run, block_on, poll, poll_loop, turn}
use tenacious.Engine.Async.Builder
use tenacious.Engine.Async.Builder.{retry_async, retry_async_ext, with_stop, with_wait, with_clock}
use tenacious.Tests.Units.{
  Bench, IntResult, arbitrary_attempts, counted, clock_cell, setup, abort_on_fatal, seek_error,
}

-- The default clock, which every test replaces.
abbrev system : AsyncClock Bench VirtualWait
system = record {
  now = pure 0;
  wait_async = λ dur. pure (record { dur = dur; advanced = false });
  poll_wait = λ f. pure (ready tt, f);
}

-- The builder of a test, where `none` would be a panic of `stop::attempts`.
abbrev Building : Type 0 → Type 0 → Type 0 → Type 0
Building R A O = Option (AsyncRetry Bench O VirtualWait R A O)

-- The `poll` of an `async` block.
abbrev poll_block : {O : Type 0} → O → M Bench (Poll O × O)
poll_block o = pure (ready o, o)

module _ {R A O : Type 0} where
  -- `retry_async(op)`
  unfoldable begin : Outcome O R A → RetryOp Bench O → Building R A O
  unfolding retry_async default_classifier new result_outcome
  begin outcome op = retry_async whole system poll_block outcome op

  -- `op.retry_async()`
  unfoldable begin_ext : Outcome O R A → M Bench O → Building R A O
  unfolding retry_async_ext default_classifier new result_outcome
  begin_ext outcome op = retry_async_ext whole system poll_block outcome op

  -- `.stop(stop::attempts(max)).wait(wait::fixed(delay)).clock(&clock)`
  unfoldable chained : ℕ → Duration → Building R A O → Building R A O
  unfolding attempts after_attempts with_stop with_wait with_clock fixed fixed_wait async_clock
  chained max delay none = none
  chained max delay (some self) =
      Option.map
        (λ stop.
          with_clock (async_clock clock_cell)
            (with_wait (fixed_wait (fixed delay)) (with_stop (after_attempts stop) self)))
        (attempts max)

  -- `block_on` of `.with_stats().call()`, with fuel for 200 polls.
  unfoldable finished_of : Building R A O → Option (Finished R A O) × Bench
  unfolding block_on poll poll_loop turn into_run step setup hook_chain with_stats WithStats.call
  finished_of none = (none, setup)
  finished_of (some self) = block_on 200 200 (WithStats.call (with_stats self)) setup

  -- `block_on` of `.call()`, whose `DropStats` leaves the stats out.
  unfoldable outcome_of : Building R A O → Option (Result R (RetryError A O)) × Bench
  unfolding block_on poll poll_loop turn into_run step setup hook_chain
  outcome_of none = (none, setup)
  outcome_of (some self) =
      let f = block_on 200 200 (into_run self) setup in
      (Option.map (λ finished. finished.0) f.0, f.1)

abbrev async_retry_ext_starts_from_a_no_arg_closure : Building ℕ String IntResult
async_retry_ext_starts_from_a_no_arg_closure =
    chained arbitrary_attempts 0
      (begin_ext result_outcome (counted (λ n. if leb 2 n then ok 5 else err "x")))

async_no_arg_closure_ok :
    let t = outcome_of async_retry_ext_starts_from_a_no_arg_closure in
    (t.0 ≡ some (ok 5)) × (t.1.counter ≡ 2)
unfolding outcome_of chained begin_ext
async_no_arg_closure_ok = (refl, refl)

abbrev async_default_path_retries_then_returns_ok : Building ℕ String IntResult
async_default_path_retries_then_returns_ok =
    chained arbitrary_attempts 0
      (begin result_outcome (λ _. counted (λ n. if leb 2 n then ok 7 else err "x")))

async_retried_ok :
    let t = outcome_of async_default_path_retries_then_returns_ok in
    (t.0 ≡ some (ok 7)) × (t.1.counter ≡ 2)
unfolding outcome_of chained begin
async_retried_ok = (refl, refl)

abbrev async_decide_infers_through_fut_output : Building ℕ String IntResult
async_decide_infers_through_fut_output = chained arbitrary_attempts 0 (
    Option.map (Builder.decide verdict_into (λ o. pure (abort_on_fatal o)))
      (begin result_outcome (λ _. pure (err "fatal"))))

async_aborted_payload :
    (outcome_of async_decide_infers_through_fut_output).0 ≡ some (err (RetryError.aborted "boom"))
unfolding outcome_of chained begin Builder.decide closure_classifier verdict_into
async_aborted_payload = refl

abbrev async_decide_returns_sought_error_through_ok :
    Building String Infallible (Result (Unit {0}) String)
async_decide_returns_sought_error_through_ok = chained 10 0 (
    Option.map (Builder.decide_anew decision_into (λ o. pure (seek_error o)))
      (begin result_outcome (λ _. counted (λ n. if leb 3 n then err "crash" else ok tt))))

async_sought_error :
    let t = outcome_of async_decide_returns_sought_error_through_ok in
    (t.0 ≡ some (ok "crash")) × (t.1.counter ≡ 3)
unfolding outcome_of chained begin Builder.decide_anew closure_classifier decision_into
async_sought_error = (refl, refl)

abbrev async_until_polls_a_result : Building ℕ String IntResult
async_until_polls_a_result = chained arbitrary_attempts 0 (
    Option.map (Builder.until (ok_when (λ v. pure (leb 3 v))))
      (begin result_outcome (λ _. counted (λ n. ok n))))

async_polled_until :
    let t = outcome_of async_until_polls_a_result in (t.0 ≡ some (ok 3)) × (t.1.counter ≡ 3)
unfolding outcome_of chained begin Builder.until Decision.until ok_when
async_polled_until = (refl, refl)

-- `reason.set(Some(e.stop_reason()))`
abbrev note_reason : Hook Bench (Exit ℕ String IntResult)
note_reason e w = (tt, record w { reason = some (stop_reason e) })

abbrev async_with_stats_and_on_exit_match_the_sync_engine : Building ℕ String IntResult
async_with_stats_and_on_exit_match_the_sync_engine =
    chained 3 5_000_000
      (Option.map (Builder.on_exit note_reason) (begin result_outcome (λ _. pure (err "boom"))))

abbrev stats_of_three_attempts : RetryStats
stats_of_three_attempts = record {
  attempts = 3;
  total_elapsed = 10_000_000;
  total_wait = 10_000_000;
  stop_reason = StopReason.exhausted;
}

async_reported :
    let t = finished_of async_with_stats_and_on_exit_match_the_sync_engine in
    (t.0 ≡ some (err (RetryError.exhausted (err "boom")), stats_of_three_attempts))
    × (t.1.reason ≡ some StopReason.exhausted)
unfolding finished_of chained begin Builder.on_exit chain_on_exit stop_reason
async_reported = (refl, refl)
