-- ===== src/Tests/Specification.antt =====
-- The sync engine against its specification, and the log of a future, at concrete retries.
use tenacious.Prelude.{
  Bool-cases, inl, inr, ℕ, zero, suc, ◌≡◌, refl, some, ok, err, Result, leb, arith, [], pure, ltb,
  if◌then◌else◌, ◌-◌, ◌*◌, ◌^◌, min,
}
use tenacious.Decision.{Verdict, default_classifier, result_outcome}
use tenacious.Duration
use tenacious.State.{RetryState}
use tenacious.Float.Whole.{whole, whole-IsIeee}
use tenacious.Engine.Sync.Builder.{from_op}
use tenacious.Engine.Sync.Defaults.{from_op_total}
use tenacious.Stop.{after_attempts}
use tenacious.Wait.Strategies.{linear_wait}
use tenacious.Clock.Virtual.{sync_clock, async_clock}
use tenacious.Engine.Sync.{Retry, Finished, run}
use tenacious.Engine.Sync.Spec.{resolve, Follows, Meets}
use tenacious.Engine.Sync.Spec.Refinement.{run-Meets}
use tenacious.Engine.Sync.Shapes.{ResultShaped, OptionShaped, FlowShaped, run-Shaped}
use tenacious.Engine.Hooks
use tenacious.Decision.{option_outcome, control_flow_outcome}
use tenacious.Prelude.{Option, none, Infallible, ControlFlow, continue}
use tenacious.Engine.Async.{into_run, block_on}
use tenacious.Engine.Async.Spec.{block_on-Meets}
use tenacious.Engine.Async.Parity.{blocking}
use tenacious.Tests.Fixtures.{flaky, flaky-Completes}
use tenacious.Prelude.{◌≤◌}
use tenacious.Engine.Async.Logged.{Quiet, recorded, Logged, polled_times}
use tenacious.Engine.Async.Events.{polled_times-events}
use tenacious.Tests.Fixtures.{
  World, fresh, log_cell, log_cell-IsCell, sync_retry, async_retry, clock_cell, virtual-Completes,
}

-- The first two attempts fail.
abbrev outcomes : ℕ → Result ℕ ℕ
outcomes attempt = if ltb attempt 3 then err attempt else ok 7

abbrev numbered : Retry World ℕ ℕ (Result ℕ ℕ)
numbered = record sync_retry { op = λ state. pure (outcomes state.attempt) }

abbrev judge : Result ℕ ℕ → Verdict ℕ ℕ (Result ℕ ℕ)
judge (ok value) = Verdict.accept value
judge (err e) = Verdict.retry (err e)

numbered-classified :
    (outcome : Result ℕ ℕ) (w : World) → (numbered.classifier outcome w).0 ≡ judge outcome
unfolding default_classifier result_outcome
numbered-classified (ok value) w = refl
numbered-classified (err e) w = refl

numbered-stops : (state : _) (w : World) → (numbered.stop state w).0 ≡ leb 5 state.attempt
unfolding after_attempts
numbered-stops state w = refl

-- The third attempt is accepted.
resolved : resolve judge outcomes 4 1 ≡ (ok 7, 3)
resolved = refl

async_retry-Quiet : Quiet log_cell async_retry
unfolding async_clock default_classifier after_attempts linear_wait
async_retry-Quiet = record {
  now = λ w. refl;
  wait_async = λ dur w. refl;
  poll_wait = λ fut w. elim (Bool-cases fut.advanced) [ inl e ↦ rw e refl | inr e ↦ rw e refl ];
  op = λ state w. refl;
  poll_op = poll_quiet;
  strategies = record {
    classifier_quiet = λ outcome w. refl;
    stop_quiet = λ state w. refl;
    wait_quiet = λ state w. refl;
  };
}
  where
    poll_quiet : (fut : ℕ) (w : World) → log_cell.get (async_retry.poll_op fut w).1 ≡ log_cell.get w
    poll_quiet zero w = refl
    poll_quiet (suc n) w = refl

-- The future is dropped after two polls.
polled_times-events_example :
    let t = polled_times 2 9 (into_run (recorded log_cell async_retry)) fresh in
    Logged log_cell async_retry [] t.0 t.1
polled_times-events_example =
    polled_times-events log_cell log_cell-IsCell async_retry async_retry-Quiet 2 9 fresh

-- The calls of `flaky` are counted.
abbrev Called : ℕ → World → Type 0
Called k w = suc w.calls ≡ k

abbrev flaky_outcomes : ℕ → Result ℕ ℕ
flaky_outcomes k = if ltb (k - 1) 2 then err (k - 1) else ok 7

flaky-Called :
    (k : ℕ) (state : _) (w : World)
    → Called k w
    → ((sync_retry.op state w).0 ≡ flaky_outcomes k) × Called (suc k) (sync_retry.op state w).1
flaky-Called k state w here =
    let before : k - 1 ≡ w.calls = omega arith in rw before (refl, omega arith)

sync_retry-Follows : Follows Called judge flaky_outcomes sync_retry
unfolding sync_clock default_classifier after_attempts linear_wait Hooks.new
sync_retry-Follows = record {
  classified = numbered-classified;
  delivered = λ state w here. flaky-Called state.attempt state w here;
  now = λ w k here. here;
  sleep = λ delay w k here. here;
  rest = record {
    classifier = λ outcome w k here. here;
    stop = λ state w k here. here;
    wait = λ state w k here. here;
    before_attempt = λ view w k here. here;
    after_attempt = λ view w k here. here;
    on_exit = λ view w k here. here;
  };
}

run-Meets_example : Meets Called (run 5 sync_retry fresh) (resolve judge flaky_outcomes (5 - 1) 1)
run-Meets_example =
    run-Meets sync_retry judge flaky_outcomes Called sync_retry-Follows 5 (omega arith)
      numbered-stops refl fresh (omega arith) refl

from_op_total_example :
    (self : Retry World ℕ ℕ (Result ℕ ℕ)) × (from_op whole
        (sync_clock clock_cell)
        result_outcome
        flaky
      ≡ some self)
    × Meets Called (run 3 self fresh) (resolve result_outcome.classify flaky_outcomes 2 1)
    × ((state : RetryState) (w : World)
        → self.wait state w ≡ (min (100_000_000 * 2 ^ (state.attempt - 1)) Duration.max, w))
unfolding sync_clock
from_op_total_example =
    from_op_total whole whole-IsIeee (sync_clock clock_cell) result_outcome flaky Called
      flaky_outcomes fresh (λ state w here. flaky-Called state.attempt state w here)
      (λ w k here. here) (λ delay w k here. here) refl

blocking-Follows :
    Follows Called judge flaky_outcomes (blocking async_retry flaky (sync_clock clock_cell).wait)
unfolding sync_clock async_clock
blocking-Follows = sync_retry-Follows

block_on-Meets_example :
    let answer = resolve judge flaky_outcomes (5 - 1) 1 in
    (f : Finished ℕ ℕ (Result ℕ ℕ)) × (w' : World) × ((polls : ℕ) × (fuel : ℕ) × ((p k : ℕ)
        → polls ≤ p
        → fuel ≤ k
        → block_on p k (into_run async_retry) fresh ≡ (some f, w')))
    × (f.0 ≡ answer.0)
    × (f.1.attempts ≡ answer.1)
    × Called (suc answer.1) w'
block_on-Meets_example =
    block_on-Meets async_retry flaky (sync_clock clock_cell).wait flaky-Completes virtual-Completes
      judge flaky_outcomes Called 5 fresh blocking-Follows (omega arith) numbered-stops refl
      (omega arith) refl

-- Operations that never have the value.
abbrev absent : Retry World ℕ Infallible (Option ℕ)
absent = record {
  op = λ state. pure none;
  classifier = default_classifier option_outcome;
  stop = sync_retry.stop;
  wait = sync_retry.wait;
  clock = sync_retry.clock;
  hooks = Hooks.new;
  timeout = none;
}

abbrev going_on : Retry World ℕ Infallible (ControlFlow ℕ ℕ)
going_on = record {
  op = λ state. pure (continue state.attempt);
  classifier = default_classifier control_flow_outcome;
  stop = sync_retry.stop;
  wait = sync_retry.wait;
  clock = sync_retry.clock;
  hooks = Hooks.new;
  timeout = none;
}

run-Shaped_example :
    ((f : Finished ℕ ℕ (Result ℕ ℕ)) → (run 5 sync_retry fresh).0 ≡ some f → ResultShaped f.0)
    × ((f : Finished ℕ Infallible (Option ℕ)) → (run 5 absent fresh).0 ≡ some f → OptionShaped f.0)
    × ((f : Finished ℕ Infallible (ControlFlow ℕ ℕ))
        → (run 5 going_on fresh).0 ≡ some f
        → FlowShaped f.0)
run-Shaped_example = run-Shaped sync_retry absent going_on 5 fresh refl refl refl
