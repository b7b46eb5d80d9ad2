-- ===== src/Tests/Traces.antt =====
-- The calls that a sync retry makes, at a concrete retry.
use tenacious.Prelude.{
  ap, ℕ, ◌+◌, ◌≡◌, refl, some, none, ok, err, Result, [], ◌∷◌, ltb, if◌then◌else◌, M, Ref, IsCell,
}
use tenacious.State.{RetryState}
use tenacious.Decision.{default_classifier, result_outcome}
use tenacious.Stop.{after_attempts}
use tenacious.Wait.Strategies.{linear, linear_wait}
use tenacious.Clock.Virtual.{VirtualClock, sync_clock}
use tenacious.Engine.Hooks
use tenacious.Engine.State
use tenacious.Engine.State.{StopReason}
use tenacious.Engine.Step.{step}
use tenacious.Engine.Sync.{Retry, Finished, run, loop, resume, round}
use tenacious.Engine.Sync.Frame.{Keeps}
use tenacious.Engine.Sync.Calls.{
  Trace, Traced, traced, run-Traced, now, classify, before, op, after, stop, wait, sleep, exit,
}

-- A clock, the number of calls of the operation, and the trace.
record World : Type 0 where
  clock : VirtualClock
  calls : ℕ
  trace : Trace

abbrev clock_cell : Ref World VirtualClock
clock_cell = record { get = λ w. w.clock; set = λ c w. record w { clock = c } }

abbrev trace_cell : Ref World Trace
trace_cell = record { get = λ w. w.trace; set = λ t w. record w { trace = t } }

trace_cell-IsCell : IsCell trace_cell
trace_cell-IsCell = record { get-set = λ a w. refl; set-set = λ a b w. refl }

abbrev fresh : World
fresh = record { clock = record { now = 0; waits = [] }; calls = 0; trace = [] }

-- Fails once, then succeeds.
abbrev flaky : RetryState → M World (Result ℕ ℕ)
flaky state w = (if ltb w.calls 1 then err w.calls else ok 7, record w { calls = w.calls + 1 })

abbrev retry : Retry World ℕ ℕ (Result ℕ ℕ)
retry = record {
  op = flaky;
  classifier = default_classifier result_outcome;
  stop = after_attempts (record { max = 5 });
  wait = linear_wait (linear 10 5);
  clock = sync_clock clock_cell;
  hooks = Hooks.new;
  timeout = none;
}

retry-Keeps : Keeps trace_cell.get retry
unfolding sync_clock default_classifier after_attempts linear_wait Hooks.new
retry-Keeps = record {
  now = λ w. refl;
  parts = record {
    op = λ state w. refl;
    rest = record {
      classifier = λ outcome w. refl;
      stop = λ state w. refl;
      wait = λ state w. refl;
      before_attempt = λ view w. refl;
      after_attempt = λ view w. refl;
      on_exit = λ view w. refl;
    };
  };
}

sleep_keeps :
    (delay : _) (w : World) → trace_cell.get (retry.clock.wait delay w).1 ≡ trace_cell.get w
unfolding sync_clock
sleep_keeps delay w = refl

abbrev last_trace : Trace
last_trace =
    exit StopReason.returned
    ∷ classify
    ∷ after 2
    ∷ now
    ∷ op 2
    ∷ before 2
    ∷ now
    ∷ sleep 10
    ∷ wait 1
    ∷ stop 1
    ∷ classify
    ∷ after 1
    ∷ now
    ∷ op 1
    ∷ before 1
    ∷ now
    ∷ now
    ∷ []

abbrev finished : Finished ℕ ℕ (Result ℕ ℕ)
finished = (
  ok 7,
  record { attempts = 2; total_elapsed = 10; total_wait = 10; stop_reason = StopReason.returned },
)

second_attempt : run 5 (traced trace_cell retry) fresh ≡ (
  some finished,
  record { clock = record { now = 10; waits = 10 ∷ [] }; calls = 2; trace = last_trace },
)
unfolding run loop resume round step default_classifier result_outcome Hooks.new after_attempts
    linear_wait linear sync_clock State.stop_reason
second_attempt = refl

run-Traced_example : Traced trace_cell [] finished (run 5 (traced trace_cell retry) fresh).1
run-Traced_example =
    run-Traced trace_cell trace_cell-IsCell retry retry-Keeps sleep_keeps 5 fresh
      (ap (λ r. r.0) second_attempt)
