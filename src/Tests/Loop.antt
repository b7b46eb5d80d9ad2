-- ===== src/Tests/Loop.antt =====
-- The sync engine at concrete operations.
use tenacious.Prelude.{ℕ, ◌≤◌, ◌-◌, min, ◌≡◌, refl, none, some, ok, err, Result, arith, le→leb}
use tenacious.Duration
use tenacious.Decision.{Verdict, default_classifier, result_outcome}
use tenacious.Stop
use tenacious.Stop.{StopsBy, after_attempts, attempts}
use tenacious.Wait.Strategies.{linear, linear_wait}
use tenacious.Clock.Virtual.{sync_clock}
use tenacious.Engine.State.{StopReason}
use tenacious.Engine.Hooks
use tenacious.Engine.Hooks.{ExecutionHooks}
use tenacious.Engine.Error.{RetryError}
use tenacious.Engine.Stats.{RetryStats}
use tenacious.Engine.Step.{Progress, Step, step}
use tenacious.Engine.Step.Laws.{step-timeout, wait_within}
use tenacious.Engine.Sync.{Retry, Finished, run, loop, resume, round}
use tenacious.Engine.Sync.Outcome.{Attempted, run_total, run-Attempted}
use tenacious.Engine.Sync.Builder.{with_clock}
use tenacious.Engine.Sync.Frame.{Keeps, Moves}
use tenacious.Engine.Sync.Elapsed.{run_total_elapsed-ge}
use tenacious.Clock.Contract.{Onward}
use tenacious.Clock.Virtual.Laws.{sync_clock-IsCoherent}
use tenacious.Engine.Sync.Waits.{Waited, run-waits}
use tenacious.Engine.Step.Log.{recording}
use tenacious.Engine.Sync.Events.{Quiet}
use tenacious.Tests.Fixtures.{
  World, fresh, clock_cell, log_cell, clock_cell-IsCell, policy, sync_retry,
}

sync_retry-StopsBy : StopsBy 5 sync_retry.stop
unfolding after_attempts
sync_retry-StopsBy state w le = le→leb 5 state.attempt le

run_total_example :
    (f : Finished ℕ ℕ (Result ℕ ℕ)) × ((run 5 sync_retry fresh).0 ≡ some f)
    × (1 ≤ f.1.attempts)
    × (f.1.attempts ≤ 5)
run_total_example = run_total sync_retry 5 fresh (omega arith) (omega arith) sync_retry-StopsBy

-- The third attempt succeeds.
abbrev finished : Finished ℕ ℕ (Result ℕ ℕ)
finished = (
  ok 7,
  record { attempts = 3; total_elapsed = 25; total_wait = 25; stop_reason = StopReason.returned },
)

third_attempt : (run 5 sync_retry fresh).0 ≡ some finished
unfolding run loop resume round step default_classifier result_outcome Hooks.new after_attempts
    linear_wait linear sync_clock
third_attempt = refl

run-Attempted_example :
    Attempted sync_retry 3 (Verdict.accept 7) × (StopReason.returned ≡ StopReason.returned)
run-Attempted_example = run-Attempted sync_retry 5 fresh third_attempt

abbrev no_time : Retry World ℕ ℕ (Result ℕ ℕ)
no_time = record sync_retry { timeout = some 0 }

sync_retry-Keeps : Keeps clock_cell.get (with_clock (sync_clock clock_cell) sync_retry)
unfolding with_clock sync_clock default_classifier after_attempts linear_wait Hooks.new
sync_retry-Keeps = record {
  now = λ w. refl;
  parts = record {
    op = λ state w. refl;
    rest = record {
      classifier = λ outcome w. refl;
      stop = λ state w. refl;
      wait = λ state w. refl;
      before_attempt = λ view w. refl;
      after_attempt = λ view w. refl;
      on_exit = λ view w. refl;
    };
  };
}

third_attempt_clock :
    (run 5 (with_clock (sync_clock clock_cell) sync_retry) fresh).0 ≡ some finished
unfolding with_clock run loop resume round step default_classifier result_outcome Hooks.new
    after_attempts linear_wait linear sync_clock
third_attempt_clock = refl

run-waits_example :
    Waited clock_cell
      (clock_cell.get fresh)
      25
      (run 5 (with_clock (sync_clock clock_cell) sync_retry) fresh).1
run-waits_example =
    run-waits clock_cell clock_cell-IsCell sync_retry sync_retry-Keeps 5 fresh (omega arith)
      third_attempt_clock

sync_retry-Quiet : Quiet log_cell sync_retry
unfolding sync_clock default_classifier after_attempts linear_wait
sync_retry-Quiet = record {
  now = λ w. refl;
  sleep = λ dur w. refl;
  op = λ state w. refl;
  strategies = record {
    classifier_quiet = λ outcome w. refl;
    stop_quiet = λ state w. refl;
    wait_quiet = λ state w. refl;
  };
}

abbrev logged : Retry World ℕ ℕ (Result ℕ ℕ)
logged = record sync_retry { hooks = recording log_cell }

third_attempt_logged : (run 5 logged fresh).0 ≡ some finished
unfolding run loop resume round step default_classifier result_outcome Hooks.new after_attempts
    linear_wait linear sync_clock
third_attempt_logged = refl

sync_retry-Moves : Moves (Onward sync_retry.clock (λ _. Unit {0})) sync_retry
unfolding sync_clock default_classifier after_attempts linear_wait Hooks.new
sync_retry-Moves = record {
  op = λ state w _. (tt, omega arith);
  rest = record {
    classifier = λ outcome w _. (tt, omega arith);
    stop = λ state w _. (tt, omega arith);
    wait = λ state w _. (tt, omega arith);
    before_attempt = λ view w _. (tt, omega arith);
    after_attempt = λ view w _. (tt, omega arith);
    on_exit = λ view w _. (tt, omega arith);
  };
}

third_attempt_timed : (run 5 sync_retry fresh).0 ≡ some finished
unfolding run loop resume round step default_classifier result_outcome Hooks.new after_attempts
    linear_wait linear sync_clock
third_attempt_timed = refl

run_total_elapsed-ge_example :
    min finished.1.total_wait (Duration.max - (sync_retry.clock.now fresh).0)
    ≤ finished.1.total_elapsed
run_total_elapsed-ge_example =
    run_total_elapsed-ge sync_retry (λ _. Unit {0})
      (sync_clock-IsCoherent clock_cell clock_cell-IsCell) sync_retry-Moves 5 fresh tt
      third_attempt_timed

-- The progress after the second attempt.
abbrev second : Progress
second = record { attempt = 2; elapsed = 40; previous_delay = some 10; total_wait = 10 }

abbrev hooks : ExecutionHooks World ℕ ℕ (Result ℕ ℕ)
hooks = recording log_cell

step-timeout_example :
    step second (err 1) policy.classifier policy.stop policy.wait (some 40) hooks fresh
    ≡ step second
        (err 1)
        policy.classifier
        (Stop.any policy.stop (Stop.after_elapsed (Stop.elapsed 40)))
        (wait_within 40 policy.wait)
        none
        hooks
        fresh
step-timeout_example =
    step-timeout second (err 1) policy.classifier policy.stop policy.wait 40 hooks fresh

abbrev gives_up : RetryStats
gives_up = record {
  attempts = 2;
  total_elapsed = 40;
  total_wait = 10;
  stop_reason = StopReason.exhausted;
}

over_budget :
    (step second (err 1) policy.classifier policy.stop policy.wait (some 40) hooks fresh).0
    ≡ Step.done (err (RetryError.exhausted (err 1))) gives_up
unfolding run loop resume round step default_classifier result_outcome Hooks.new after_attempts
    linear_wait linear sync_clock
over_budget = refl
