-- ===== src/Tests/Limits.antt =====
-- The sync engine at its limits, and the default policy.
use tenacious.Prelude.{
  ℕ, suc, ◌/◌, ◌≤◌, ◌+◌, ◌≡◌, refl, false, none, some, ok, err, Result, arith, pure,
}
use tenacious.State.{RetryState}
use tenacious.Decision.{Verdict, default_classifier, result_outcome}
use tenacious.Stop
use tenacious.Stop.{after_attempts}
use tenacious.Wait.Strategies.{linear, linear_wait}
use tenacious.Clock.Virtual.{sync_clock}
use tenacious.Engine.State.{StopReason}
use tenacious.Engine.Hooks
use tenacious.Engine.Error
use tenacious.Engine.Error.{RetryError}
use tenacious.Engine.Step.{step}
use tenacious.Engine.Sync.{Retry, Finished, run, loop, resume, round}
use tenacious.Engine.Sync.Frame.{Moves}
use tenacious.Engine.Sync.Expiry.{run_timeout-total}
use tenacious.Clock.Contract.{Onward}
use tenacious.Clock.Virtual.Laws.{sync_clock-IsCoherent}
use tenacious.Engine.Sync.Failing.{Failing}
use tenacious.Wait.Strategies.{fixed, fixed_wait}
use tenacious.Clock.Virtual
use tenacious.Prelude.{leb}
use tenacious.Engine.Sync.Endless.{run_frozen-none}
use tenacious.Prelude.{lt→not_leb, inr, skip}
use tenacious.Stop.{after_elapsed}
use tenacious.Engine.Sync.Failure.{Explains, run-Explains}
use tenacious.Tests.Fixtures.{World, fresh, clock_cell, clock_cell-IsCell, sync_retry}

-- The third attempt succeeds.
abbrev finished : Finished ℕ ℕ (Result ℕ ℕ)
finished = (
  ok 7,
  record { attempts = 3; total_elapsed = 25; total_wait = 25; stop_reason = StopReason.returned },
)

-- Every outcome is to be retried, for ever.
abbrev endless : Retry World ℕ ℕ (Result ℕ ℕ)
endless = record sync_retry {
  classifier = λ outcome. pure (Verdict.retry outcome);
  stop = Stop.never;
}

-- The clock reads 5 for ever, so that neither the timeout nor the stop strategy fires.
abbrev frozen : Retry World ℕ ℕ (Result ℕ ℕ)
frozen = record endless {
  stop = after_elapsed (Stop.elapsed 7);
  clock = record { now = pure 5; wait = λ dur. skip };
  timeout = some 30;
}

frozen-goes_on :
    (state : RetryState) (w : World) → state.elapsed ≡ 0 → (frozen.stop state w).0 ≡ false
unfolding after_elapsed Stop.elapsed
frozen-goes_on state w none_passed = lt→not_leb 7 state.elapsed (omega arith)

run_frozen-none_example : (run 1000 frozen fresh).0 ≡ none
run_frozen-none_example =
    run_frozen-none frozen (λ outcome w. (outcome, refl)) 5 (λ w. refl) frozen-goes_on 30
      (omega arith) (inr refl) 1000 fresh

-- For ever, but for the timeout.
abbrev timed : Retry World ℕ ℕ (Result ℕ ℕ)
timed = record endless { timeout = some 30 }

timed-Moves : Moves (Onward timed.clock (λ _. Unit {0})) timed
unfolding sync_clock Stop.never linear_wait Hooks.new
timed-Moves = record {
  op = λ state w _. (tt, omega arith);
  rest = record {
    classifier = λ outcome w _. (tt, omega arith);
    stop = λ state w _. (tt, omega arith);
    wait = λ state w _. (tt, omega arith);
    before_attempt = λ view w _. (tt, omega arith);
    after_attempt = λ view w _. (tt, omega arith);
    on_exit = λ view w _. (tt, omega arith);
  };
}

timed-asks : (state : RetryState) (w : World) → 10 ≤ (timed.wait state w).0
unfolding linear_wait linear
timed-asks state w = omega arith

run_timeout-total_example :
    (f : Finished ℕ ℕ (Result ℕ ℕ)) × ((run (suc (30 / 10 + 1)) timed fresh).0 ≡ some f)
unfolding sync_clock
run_timeout-total_example =
    run_timeout-total timed (λ _. Unit {0}) (sync_clock-IsCoherent clock_cell clock_cell-IsCell)
      timed-Moves 30 10 refl (omega arith) timed-asks fresh tt (omega arith)

-- Two attempts are not enough.
abbrev impatient : Retry World ℕ ℕ (Result ℕ ℕ)
impatient = record sync_retry { stop = after_attempts (record { max = 2 }) }

abbrev failed : Finished ℕ ℕ (Result ℕ ℕ)
failed = (
  err (RetryError.exhausted (err 1)),
  record { attempts = 2; total_elapsed = 10; total_wait = 10; stop_reason = StopReason.exhausted },
)

two_attempts : (run 5 impatient fresh).0 ≡ some failed
unfolding run loop resume round step default_classifier result_outcome Hooks.new after_attempts
    linear_wait linear sync_clock
two_attempts = refl

run-Explains_example :
    (StopReason.exhausted
      ≡ Error.stop_reason {A = ℕ} {O = Result ℕ ℕ} (RetryError.exhausted (err 1)))
    × Explains impatient 2 (RetryError.exhausted (err 1))
run-Explains_example =
    run-Explains impatient 5 fresh (RetryError.exhausted (err 1)) two_attempts refl

-- Waits of 10 ns under a timeout of 25 ns.
abbrev failing : Retry World ℕ ℕ (Result ℕ ℕ)
failing = record {
  op = λ state. pure (err 1);
  classifier = default_classifier result_outcome;
  stop = after_attempts (record { max = 9 });
  wait = fixed_wait (fixed 10);
  clock = sync_clock clock_cell;
  hooks = Hooks.new;
  timeout = some 25;
}

failing-Failing : Failing clock_cell (err 1) (err 1) (leb 9) (λ k. 10) 25 failing
unfolding default_classifier result_outcome after_attempts fixed_wait fixed sync_clock Virtual.now
    Hooks.new
failing-Failing = record {
  op = λ state w. refl;
  classifier = λ w. refl;
  stop = λ state w. refl;
  wait = λ state w. refl;
  now = λ w. refl;
  sleep = λ d w. refl;
  before_attempt = λ view w. refl;
  after_attempt = λ view w. refl;
  on_exit = λ view w. refl;
  timeout = refl;
}
