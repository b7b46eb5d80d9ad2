-- ===== src/Examples/SyncCancel.antt =====
-- examples/sync-cancel.rs: a deadline, and a flag that another thread may set.
pub mod Calls
pub mod Deadline
pub mod Cancelled
use mathlib.Core.Option
use Prim.Native.String.{String}
use tenacious.Prelude.{
  ℕ, ◌+◌, ◌%◌, ◌^◌, Bool, true, false, Option, Result, ok, err, M, pure, ◌>>=◌, ◌>>◌, skip, Ref,
  leb, if◌then◌else◌,
}
use tenacious.Float.{Float}
use tenacious.Predicate.{error}
use tenacious.Decision.{result_outcome}
use tenacious.Wait.Strategies.{fixed, fixed_wait}
use tenacious.Clock.{SyncClock}
use tenacious.Engine.Sync.{Retry}
use tenacious.Engine.Sync.Builder.{retry, retry_ext, when, with_timeout, with_wait}
use tenacious.Examples.{with_attempts}

pub data ServiceError : Type 0 where
  transient : String → ServiceError
  cancelled : ServiceError

-- `matches!(e, ServiceError::Transient(_))`
unfoldable pub is_transient : ServiceError → Bool
is_transient (ServiceError.transient _) = true
is_transient ServiceError.cancelled = false

-- Pattern 2. `flag` is the `AtomicBool`, `counter` the number behind the mutex, a
-- `u32`; an unchecked build wraps it around, and a checked one panics there.
module _ {World : Type 0} (flag : Ref World Bool) (counter : Ref World ℕ) where
  -- The rest of the operation, once the flag was seen not to be set.
  unfoldable pub simulate : M World (Result (Unit {0}) ServiceError)
  simulate w =
      let n = (counter.get w + 1) % 2 ^ 32 in
      let w' = counter.set n w in
      (err (ServiceError.transient "connection refused"), if leb 3 n then flag.set true w' else w')

  unfoldable pub operation : M World (Result (Unit {0}) ServiceError)
  unfolding simulate
  operation w = if flag.get w then (err ServiceError.cancelled, w) else simulate w

module _ {World : Type 0} (f : Float) (system : SyncClock World) where
  -- Pattern 1: 100 attempts with waits of 100 ms, and a budget of 250 ms.
  unfoldable pub deadline_retry : Option (Retry World String String (Result String String))
  unfolding retry_ext with_wait with_timeout fixed fixed_wait
  deadline_retry =
      Option.map (λ self. with_timeout 250_000_000 self)
        (Option.map (λ self. with_wait (fixed_wait (fixed 100_000_000)) self)
          (with_attempts 100
            (retry_ext f system result_outcome (pure (err "service unavailable")))))

  module _ (flag : Ref World Bool) (counter : Ref World ℕ) where
    -- The builder up to the predicate, which retries every error.
    unfoldable pub eager_retry :
        Option (Retry World (Unit {0}) ServiceError (Result (Unit {0}) ServiceError))
    unfolding retry with_wait fixed fixed_wait
    eager_retry =
        Option.map (λ self. with_wait (fixed_wait (fixed 0)) self)
          (with_attempts 100 (retry f system result_outcome (λ _. operation flag counter)))

    unfoldable pub cancel_retry :
        Option (Retry World (Unit {0}) ServiceError (Result (Unit {0}) ServiceError))
    unfolding eager_retry when is_transient error
    cancel_retry = Option.map (λ self. when (error (λ e. pure (is_transient e))) self) eager_retry
