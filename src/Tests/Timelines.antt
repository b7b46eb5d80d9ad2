-- ===== src/Tests/Timelines.antt =====
-- Retries of an operation that takes time, under a timeout, beside their timelines.
use tenacious.Prelude.{
  ℕ, zero, suc, ◌≡◌, ◌↔◌, refl, false, [], ◌∷◌, none, some, ok, err, Result, M, Poll, pending,
  ready, ltb, leb, ◌<◌, if◌then◌else◌, arith,
}
use tenacious.Duration.{saturating_add}
use tenacious.State.{RetryState}
use tenacious.Decision.{Verdict, default_classifier, result_outcome}
use tenacious.Stop.{after_attempts}
use tenacious.Wait.Strategies.{linear, linear_wait}
use tenacious.Clock.Virtual.{VirtualWait, sync_clock, async_clock}
use tenacious.Engine.State.{StopReason}
use tenacious.Engine.Error.{RetryError}
use tenacious.Engine.Hooks
use tenacious.Engine.Step.{step}
use tenacious.Engine.Sync.{Retry, run, loop, resume, round}
use tenacious.Prelude.{ap, ◌≤◌, ◌+◌}
use tenacious.Tests.Fixtures.{clock_cell-IsCell}
use tenacious.Engine.Sync.Builder.{with_clock}
use tenacious.Engine.Sync.Deadline.{Takes, run_timeout-le}
use tenacious.Engine.Sync.Timeline.{Plan, Timed, Unfolds, IsFirst, moment, answer, due, state}
use tenacious.Engine.Sync.Timeline.Clamped.{run_clamped-eq}
use tenacious.Engine.Sync.Timeline.Run.{run-Unfolds}
use tenacious.Engine.Async.{AsyncRetry, into_run, block_on}
use tenacious.Engine.Async.Reaches.{Completes, at_once, later}
use tenacious.Engine.Async.Parity.{blocking}
use tenacious.Engine.Async.Converse.{Eventually, block_on-iff-run}
use tenacious.Engine.Async.Timeline.{Answers, block_on-Answers}
use tenacious.Tests.Fixtures.{
  World, fresh, flaky, virtual-Completes, clock_cell, sync_retry, async_retry,
}

-- Fails twice, then succeeds, and takes 4 ns each time.
abbrev slow : RetryState → M World (Result ℕ ℕ)
slow state w =
    let (outcome, w') = flaky state w in
    (outcome, record w' { clock = record w'.clock { now = saturating_add w'.clock.now 4 } })

abbrev slow_retry : Retry World ℕ ℕ (Result ℕ ℕ)
slow_retry = record sync_retry { op = slow; timeout = some 12 }

abbrev judge : Result ℕ ℕ → Verdict ℕ ℕ (Result ℕ ℕ)
judge (ok value) = Verdict.accept value
judge (err e) = Verdict.retry (err e)

-- The calls are counted from 0.
abbrev plan : Plan ℕ ℕ (Result ℕ ℕ)
plan = record {
  classify = judge;
  outcomes = λ i. if ltb i 2 then err i else ok 7;
  takes = λ i. 4;
  stops = λ state. leb 5 state.attempt;
  asks = λ state. (linear_wait (linear 10 5) state fresh).0;
  timeout = some 12;
}

abbrev Called : ℕ → World → Type 0
Called i w = w.calls ≡ i

judged : (outcome : Result ℕ ℕ) (w : World) → (slow_retry.classifier outcome w).0 ≡ judge outcome
unfolding default_classifier result_outcome
judged (ok value) w = refl
judged (err e) w = refl

slow_retry-Timed : Timed clock_cell Called plan slow_retry
unfolding sync_clock default_classifier after_attempts linear_wait linear Hooks.new
slow_retry-Timed = record {
  classified = judged;
  stop = λ state w. refl;
  wait = λ state w. refl;
  now = λ w. refl;
  read = λ w. (refl, λ i here. here);
  sleep = λ delay w. (refl, λ i here. here);
  called = λ i state w here. (rw here refl, refl, rw here (omega arith));
  rest = record {
    classifier = λ outcome w. (refl, λ i here. here);
    stop = λ state w. (refl, λ i here. here);
    wait = λ state w. (refl, λ i here. here);
    before_attempt = λ view w. (refl, λ i here. here);
    after_attempt = λ view w. (refl, λ i here. here);
    on_exit = λ view w. (refl, λ i here. here);
  };
  timeout = refl;
}

first_undue : (j : ℕ) → j < 1 → due plan 0 j ≡ false
unfolding moment linear_wait linear
first_undue zero lt = refl
first_undue (suc j) lt = absurd (omega arith)

-- The second call returns after 16 ns, and the timeout is over.
second : IsFirst plan 0 1
unfolding moment linear_wait linear
second = (refl, first_undue)

-- What the timeline says of it: two attempts, 16 ns and a wait that is cut to 8 ns.
second_answer : answer plan 0 1 ≡ (
  err (RetryError.exhausted (err 1)),
  record { attempts = 2; total_elapsed = 16; total_wait = 8; stop_reason = StopReason.exhausted },
)
unfolding moment linear_wait linear
second_answer = refl

run-Unfolds_example : Unfolds clock_cell Called plan 0 [] 3 (run 3 slow_retry fresh)
run-Unfolds_example = run-Unfolds clock_cell Called plan slow_retry slow_retry-Timed 3 fresh refl

abbrev second_world : World
second_world = record { clock = record { now = 16; waits = 8 ∷ [] }; calls = 2; log = []; seed = 0 }

second_run : run 2 slow_retry fresh ≡ (some (answer plan 0 1), second_world)
unfolding moment linear_wait linear run loop resume round step default_classifier result_outcome
    Hooks.new after_attempts sync_clock
second_run = refl

slow_retry-Takes : Takes clock_cell 4 (with_clock (sync_clock clock_cell) slow_retry)
unfolding with_clock sync_clock default_classifier after_attempts linear_wait Hooks.new
slow_retry-Takes = record {
  forward = λ state w. omega arith;
  bounded = λ state w. omega arith;
  rest = record {
    classifier = λ outcome w. refl;
    stop = λ state w. refl;
    wait = λ state w. refl;
    before_attempt = λ view w. refl;
    after_attempt = λ view w. refl;
    on_exit = λ view w. refl;
  };
}

second_attempt :
    (run 2 (with_clock (sync_clock clock_cell) slow_retry) fresh).0 ≡ some (answer plan 0 1)
unfolding with_clock sync_clock
second_attempt = ap (λ r. r.0) second_run

-- The timeout of 12 ns is overrun by the 4 ns of the last call.
run_timeout-le_example :
    ((clock_cell.get (run 2 (with_clock (sync_clock clock_cell) slow_retry) fresh).1).now
      ≤ 0 + (12 + 4))
    × ((answer plan 0 1).1.total_elapsed ≤ 12 + 4)
run_timeout-le_example =
    run_timeout-le clock_cell clock_cell-IsCell slow_retry 4 slow_retry-Takes 2 fresh 12
      (omega arith) refl second_attempt

asks_beyond : 12 ≤ (state plan 0 0).elapsed + plan.asks (state plan 0 0)
unfolding moment linear_wait linear
asks_beyond = omega arith

-- The wait of 10 ns after the first call is cut to 8 ns.
run_clamped-eq_example :
    ((moment plan 0 1).reading ≡ 0 + 12) × ((run 2 slow_retry fresh).0 ≡ some (answer plan 0 1))
run_clamped-eq_example =
    run_clamped-eq clock_cell Called plan slow_retry slow_retry-Timed 12 0 fresh refl (omega arith)
      first_undue asks_beyond refl

-- Two pending polls, then the outcome of `slow`.
abbrev poll_slow : ℕ → M World (Poll (Result ℕ ℕ) × ℕ)
poll_slow zero w =
    let (outcome, w') = slow (record { attempt = 1; elapsed = 0; previous_delay = none }) w in
    ((ready outcome, 0), w')
poll_slow (suc n) w = ((pending, n), w)

abbrev slow_future : AsyncRetry World ℕ VirtualWait ℕ ℕ (Result ℕ ℕ)
slow_future = record async_retry { poll_op = poll_slow; timeout = some 12 }

slow-Completes :
    (state : RetryState) (w : World) → Completes poll_slow 2 w (slow state w).0 (slow state w).1
slow-Completes state w = later refl (later refl (at_once refl))

blocking-Timed :
    Timed clock_cell Called plan (blocking slow_future slow (sync_clock clock_cell).wait)
unfolding sync_clock async_clock
blocking-Timed = slow_retry-Timed

block_on-Answers_example :
    Answers slow_future slow
      (sync_clock clock_cell).wait
      slow-Completes
      virtual-Completes
      clock_cell
      Called
      plan
      blocking-Timed
      fresh
      1
block_on-Answers_example =
    block_on-Answers slow_future slow (sync_clock clock_cell).wait slow-Completes virtual-Completes
      clock_cell Called plan blocking-Timed fresh 1 refl second

-- Either engine ends with the answer of the timeline.
block_on-iff-run_example :
    let blocked = blocking slow_future slow (sync_clock clock_cell).wait in
    (((p : ℕ) × (k : ℕ) × (block_on p k (into_run slow_future) fresh
          ≡ (some (answer plan 0 1), second_world)))
      ↔ ((n : ℕ) × (run n blocked fresh ≡ (some (answer plan 0 1), second_world))))
    × (((n : ℕ) × (run n blocked fresh ≡ (some (answer plan 0 1), second_world)))
        ↔ Eventually slow_future slow
            (sync_clock clock_cell).wait
            slow-Completes
            virtual-Completes
            fresh
            (answer plan 0 1)
            second_world)
block_on-iff-run_example =
    block_on-iff-run slow_future slow (sync_clock clock_cell).wait slow-Completes virtual-Completes
      fresh (answer plan 0 1) second_world
