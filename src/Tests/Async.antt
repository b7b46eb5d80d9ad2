-- ===== src/Tests/Async.antt =====
-- The async engine at concrete futures.
use tenacious.Prelude.{
  suc, ◌↔◌, ℕ, ◌≤◌, ◌≡◌, refl, none, some, ok, [], ◌∷◌, Result, pure, ready, pending, arith, le→leb,
}
use tenacious.Stop.{StopsBy, after_attempts}
use tenacious.Clock.Virtual.{VirtualWait, sync_clock, async_clock}
use tenacious.Engine.State.{StopReason}
use tenacious.Decision.{default_classifier, result_outcome}
use tenacious.Wait.Strategies.{linear, linear_wait}
use tenacious.Engine.Hooks
use tenacious.Engine.Step.{step}
use tenacious.Engine.Sync.{Finished, start, run, loop, resume, round}
use tenacious.State.{RetryState}
use tenacious.Wait.Strategies.{fixed, fixed_wait}
use tenacious.Engine.Async.Eager.{IsReady, poll_first-ready}
use tenacious.Engine.Async.{
  AsyncRetry, AsyncRun, Phase, Polled, into_run, poll, poll_loop, turn, block_on,
}
use tenacious.Engine.Async.Parity.{blocking}
use tenacious.Engine.Async.Fused.{poll-poll}
use tenacious.Engine.Async.Wakers.{Settled, poll-Settled}
use tenacious.Engine.Async.Panics.{poll-panicked}
use tenacious.Engine.Async.Logged.{polled_times}
use tenacious.Engine.Async.Fuel.{Ends, poll-Ends}
use tenacious.Policy.{retry, retry_async}
use tenacious.Policy.Laws.{retry_async-retry}
use tenacious.Tests.Fixtures.{
  World, fresh, clock_cell, flaky, flaky_async, poll_flaky, policy, async_retry, flaky-Completes,
  virtual-Completes,
}

abbrev finished : Finished ℕ ℕ (Result ℕ ℕ)
finished = (
  ok 7,
  record { attempts = 3; total_elapsed = 25; total_wait = 25; stop_reason = StopReason.returned },
)

abbrev last_world : World
last_world = record {
  clock = record { now = 25; waits = 10 ∷ 15 ∷ [] };
  calls = 3;
  log = [];
  seed = 0;
}

third_attempt :
    run 5 (blocking async_retry flaky (sync_clock clock_cell).wait) fresh
    ≡ (some finished, last_world)
unfolding run loop resume round step default_classifier result_outcome Hooks.new async_clock
    after_attempts linear_wait linear sync_clock
third_attempt = refl

ninth_poll : block_on 9 9 (into_run async_retry) fresh ≡ (some finished, last_world)
unfolding block_on poll poll_loop turn into_run step default_classifier result_outcome Hooks.new
    async_clock after_attempts linear_wait linear
ninth_poll = refl

policy-StopsBy : StopsBy 5 policy.stop
unfolding after_attempts
policy-StopsBy state w le = le→leb 5 state.attempt le

-- The third poll of a future for five attempts at most.
poll-Ends_example :
    let t = polled_times 2 19 (into_run async_retry) fresh in Ends (poll 19 t.0 t.1).0.0
poll-Ends_example =
    poll-Ends async_retry 5 (omega arith) policy-StopsBy 19 (omega arith) 2 fresh (omega arith)

retry_async-retry_example :
    (f : Finished ℕ ℕ (Result ℕ ℕ)) × (w' : World) × (run 5
        (retry (sync_clock clock_cell) policy flaky)
        fresh
      ≡ (some f, w'))
    × ((polls : ℕ) × (fuel : ℕ) × ((m k : ℕ)
          → polls ≤ m
          → fuel ≤ k
          → block_on m k
              (into_run (retry_async (async_clock clock_cell) poll_flaky policy flaky_async))
              fresh
            ≡ (some f, w')))
unfolding sync_clock async_clock
retry_async-retry_example =
    retry_async-retry policy (async_clock clock_cell) (sync_clock clock_cell).wait poll_flaky flaky
      flaky_async flaky-Completes virtual-Completes 5 fresh (omega arith) (omega arith)
      policy-StopsBy

-- The operation's futures are ready at once, so that one poll is enough.
abbrev eager : AsyncRun World ℕ VirtualWait ℕ ℕ (Result ℕ ℕ)
eager = record {
  retry = record async_retry { op = λ state. pure 0 };
  phase = Phase.ready_to_start;
  cursor = start;
  origin = none;
}

one_poll : (poll 9 eager fresh).0.0 ≡ Polled.returned (ready finished)
unfolding poll poll_loop turn step default_classifier result_outcome Hooks.new async_clock
    after_attempts linear_wait linear
one_poll = refl

poll-poll_example : (poll 1 (poll 9 eager fresh).0.1 last_world).0.0 ≡ Polled.panicked
poll-poll_example = poll-poll 9 0 eager fresh last_world one_poll

poll-panicked_example :
    ((poll (suc 8) eager fresh).0.0 ≡ Polled.panicked) ↔ (eager.phase ≡ Phase.done)
poll-panicked_example = poll-panicked 8 eager fresh

-- The first poll is pending: the operation's future was polled, and it has one more poll to go.
poll-Settled_example :
    let t = poll 9 (into_run async_retry) fresh in
    (t.0.1.retry ≡ (into_run async_retry).retry) × Settled t.0.1.retry t.0.0 t.0.1.phase t.1
poll-Settled_example = poll-Settled 9 (into_run async_retry) fresh

first_poll :
    (poll 9 (into_run async_retry) fresh).0.0 ≡ Polled.returned pending
    × ((poll 9 (into_run async_retry) fresh).0.1.phase ≡ Phase.polling 1)
unfolding poll poll_loop turn into_run Hooks.new async_clock
first_poll = (refl, refl)

tenth_poll : (block_on 10 20 (into_run async_retry) fresh).0 ≡ some finished
unfolding block_on poll poll_loop turn into_run step default_classifier result_outcome Hooks.new
    async_clock after_attempts linear_wait linear
tenth_poll = refl

-- Its futures are ready at once, and it asks for no wait.
abbrev at_once : AsyncRetry World ℕ VirtualWait ℕ ℕ (Result ℕ ℕ)
at_once = record async_retry { op = λ state. pure 0; wait = fixed_wait (fixed 0) }

at_once-zero_wait : (state : RetryState) (w : World) → (at_once.wait state w).0 ≡ 0
unfolding fixed_wait fixed
at_once-zero_wait state w = refl

at_once-op-IsReady :
    (state : RetryState) (w : World)
    → let call = at_once.op state w in IsReady (at_once.poll_op call.0 call.1).0.0
at_once-op-IsReady state w = tt

poll_first-ready_example :
    (f : Finished ℕ ℕ (Result ℕ ℕ)) × ((poll 19 (into_run at_once) fresh).0.0
      ≡ Polled.returned (ready f))
poll_first-ready_example =
    poll_first-ready at_once at_once-zero_wait at_once-op-IsReady 5 19 fresh (omega arith)
      (omega arith) policy-StopsBy (omega arith)
