-- ===== src/Tests/Fixtures.antt =====
-- A world of four cells, and retries in it.
use tenacious.Prelude.{ℕ, zero, suc, ◌+◌, List, [], none, Result, ok, err, ltb, if◌then◌else◌}
use tenacious.Prelude.{refl, M, pure, Ref, IsCell, Poll, pending, ready}
use tenacious.Duration.{Duration}
use tenacious.State.{RetryState}
use tenacious.Decision.{default_classifier, result_outcome}
use tenacious.Stop.{after_attempts}
use tenacious.Wait.Strategies.{linear, linear_wait}
use tenacious.Clock.Virtual.{VirtualClock, VirtualWait, sync_clock, async_clock}
use tenacious.Engine.Hooks
use tenacious.Engine.Sync.{Retry}
use tenacious.Engine.Async.{AsyncRetry}
use tenacious.Engine.Async.Reaches.{Completes, at_once, later}
use tenacious.Engine.Step.Log.{Event}
use tenacious.Policy.{RetryPolicy}

-- A clock, the number of calls of the operation, a log of events, and the state of a generator.
pub record World : Type 0 where
  pub clock : VirtualClock
  pub calls : ℕ
  pub log : List Event
  pub seed : ℕ

abbrev pub fresh : World
fresh = record { clock = record { now = 0; waits = [] }; calls = 0; log = []; seed = 0 }

abbrev pub clock_cell : Ref World VirtualClock
clock_cell = record { get = λ w. w.clock; set = λ c w. record w { clock = c } }

abbrev pub log_cell : Ref World (List Event)
log_cell = record { get = λ w. w.log; set = λ l w. record w { log = l } }

abbrev pub calls_cell : Ref World ℕ
calls_cell = record { get = λ w. w.calls; set = λ n w. record w { calls = n } }

abbrev pub rng_cell : Ref World ℕ
rng_cell = record { get = λ w. w.seed; set = λ n w. record w { seed = n } }

pub clock_cell-IsCell : IsCell clock_cell
clock_cell-IsCell = record { get-set = λ a w. refl; set-set = λ a b w. refl }

pub log_cell-IsCell : IsCell log_cell
log_cell-IsCell = record { get-set = λ a w. refl; set-set = λ a b w. refl }

pub calls_cell-IsCell : IsCell calls_cell
calls_cell-IsCell = record { get-set = λ a w. refl; set-set = λ a b w. refl }

pub rng_cell-IsCell : IsCell rng_cell
rng_cell-IsCell = record { get-set = λ a w. refl; set-set = λ a b w. refl }

-- Fails twice, then succeeds.
abbrev pub flaky : RetryState → M World (Result ℕ ℕ)
flaky state w = (if ltb w.calls 2 then err w.calls else ok 7, record w { calls = w.calls + 1 })

-- Five attempts at most, and waits of 10 ns, 15 ns, ...
abbrev pub policy : RetryPolicy World ℕ ℕ (Result ℕ ℕ)
policy = record {
  stop = after_attempts (record { max = 5 });
  wait = linear_wait (linear 10 5);
  classifier = default_classifier result_outcome;
  timeout = none;
}

abbrev pub sync_retry : Retry World ℕ ℕ (Result ℕ ℕ)
sync_retry = record {
  op = flaky;
  classifier = policy.classifier;
  stop = policy.stop;
  wait = policy.wait;
  clock = sync_clock clock_cell;
  hooks = Hooks.new;
  timeout = none;
}

-- Two pending polls, then the outcome of `flaky`.
abbrev pub flaky_async : RetryState → M World ℕ
flaky_async state = pure 2

abbrev pub poll_flaky : ℕ → M World (Poll (Result ℕ ℕ) × ℕ)
poll_flaky zero w =
    let (outcome, w') = flaky (record { attempt = 1; elapsed = 0; previous_delay = none }) w in
    ((ready outcome, 0), w')
poll_flaky (suc n) w = ((pending, n), w)

abbrev pub async_retry : AsyncRetry World ℕ VirtualWait ℕ ℕ (Result ℕ ℕ)
async_retry = record {
  op = flaky_async;
  poll_op = poll_flaky;
  classifier = policy.classifier;
  stop = policy.stop;
  wait = policy.wait;
  clock = async_clock clock_cell;
  hooks = Hooks.new;
  timeout = none;
}

pub flaky-Completes :
    (state : RetryState) (w : World) → Completes poll_flaky 2 w (flaky state w).0 (flaky state w).1
flaky-Completes state w = later refl (later refl (at_once refl))

pub virtual-Completes :
    (delay : Duration) (w : World)
    → let call = (async_clock clock_cell).wait_async delay w in
      Completes
        (async_clock clock_cell).poll_wait
        call.0
        call.1
        tt
        ((sync_clock clock_cell).wait delay w).1
unfolding async_clock sync_clock
virtual-Completes delay w = at_once refl
