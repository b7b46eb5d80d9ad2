-- ===== src/Tests/Units.antt =====
-- The unit tests of the two engines and of step, in src/engine: what they build, and that what they
-- assert holds of the model. This file has what the tests share.
pub mod Sync
pub mod Observed
pub mod Async
pub mod Step
use mathlib.Core.Option
use Prim.Native.String.{String}
use text.Mathlib.Text.{◌==◌ as same_text}
use tenacious.Prelude.{
  ℕ, ◌+◌, Option, none, some, Result, ok, err, M, pure, Ref, Bool, false, skip, if◌then◌else◌,
}
use tenacious.Duration.{Duration}
use tenacious.Float.Whole.{whole}
use tenacious.Decision
use tenacious.Decision.{Outcome, Verdict, default_classifier, result_outcome}
use tenacious.Stop.{attempts, after_attempts}
use tenacious.Wait.Strategies.{fixed, fixed_wait}
use tenacious.Clock.{SyncClock}
use tenacious.Clock.Virtual
use tenacious.Clock.Virtual.{VirtualClock, sync_clock}
use tenacious.Engine.Hooks
use tenacious.Engine.Hooks.{hook_chain}
use tenacious.Engine.State.{StopReason}
use tenacious.Engine.Error.{RetryError}
use tenacious.Engine.Op.{RetryOp, stateless_op}
use tenacious.Engine.Step.{step}
use tenacious.Engine.Sync.{Retry, Finished, run, call, loop, round, resume}
use tenacious.Engine.Sync.WithStats
use tenacious.Engine.Sync.WithStats.{with_stats}
use tenacious.Engine.Sync.Builder.{retry, retry_ext, with_stop, with_wait, with_clock}
use tenacious.Examples.{with_attempts, call_built}

-- The local variables of a test: its clock, and the cells that its closures write.
pub record Bench : Type 0 where
  pub clock : VirtualClock
  pub counter : ℕ
  pub before : ℕ
  pub after : ℕ
  pub last_after_ok : Bool
  pub seen : Option (StopReason × ℕ)
  pub reason : Option StopReason

abbrev pub clock_cell : Ref Bench VirtualClock
clock_cell = record { get = λ w. w.clock; set = λ c w. record w { clock = c } }

unfoldable pub setup : Bench
unfolding Virtual.new
setup = record {
  clock = Virtual.new;
  counter = 0;
  before = 0;
  after = 0;
  last_after_ok = false;
  seen = none;
  reason = none;
}

abbrev pub arbitrary_attempts : ℕ
arbitrary_attempts = 5

abbrev pub IntResult : Type 0
IntResult = Result ℕ String

-- An operation that counts its calls: `body` is told which call it is.
abbrev pub counted : {B : Type 0} → (ℕ → B) → M Bench B
counted body w = let n = w.counter + 1 in (body n, record w { counter = n })

-- The default clock, which every test replaces.
abbrev system : SyncClock Bench
system = record { now = pure 0; wait = λ dur. skip }

module _ {R A O : Type 0} where
  -- `retry(op)`
  unfoldable pub begin : Outcome O R A → RetryOp Bench O → Option (Retry Bench R A O)
  unfolding retry default_classifier Hooks.new result_outcome
  begin outcome op = retry whole system outcome op

  -- `op.retry()`
  unfoldable pub begin_ext : Outcome O R A → M Bench O → Option (Retry Bench R A O)
  unfolding retry_ext default_classifier Hooks.new result_outcome
  begin_ext outcome op = retry_ext whole system outcome op

  -- `.stop(stop::attempts(max)).wait(wait::fixed(delay)).clock(VirtualClock::new())`
  unfoldable pub chained : ℕ → Duration → Option (Retry Bench R A O) → Option (Retry Bench R A O)
  unfolding with_attempts with_wait with_clock fixed fixed_wait sync_clock
  chained max delay self =
      Option.map (λ b. with_clock (sync_clock clock_cell) (with_wait (fixed_wait (fixed delay)) b))
        (with_attempts max self)

  -- `.call()` in the test's world, with fuel for 200 attempts.
  unfoldable pub outcome_of :
      Option (Retry Bench R A O) → Option (Result R (RetryError A O)) × Bench
  unfolding call_built call run loop round resume step setup hook_chain
  outcome_of self = call_built 200 self setup

  -- `.with_stats().call()`
  unfoldable pub stats_of : Option (Retry Bench R A O) → Option (Finished R A O)
  unfolding WithStats.call with_stats run loop round resume step setup
  stats_of none = none
  stats_of (some self) = (WithStats.call 200 (with_stats self) setup).0

-- The closure of the tests of `.decide` that abort: every error but "fatal" is retried.
abbrev pub abort_on_fatal : IntResult → Verdict ℕ String IntResult
abort_on_fatal (ok v) = Verdict.accept v
abort_on_fatal (err e) = if same_text e "fatal" then Verdict.abort "boom" else Verdict.retry (err e)

-- The closure of the tests of `.decide` that seek an error.
abbrev pub seek_error :
    Result (Unit {0}) String → Decision.Decision String (Result (Unit {0}) String)
seek_error (err e) = Decision.Decision.accept e
seek_error (ok u) = Decision.Decision.retry (ok u)
