-- ===== src/Examples/AsyncPolling.antt =====
-- examples/async-polling.rs: an endpoint that is polled until it reports "ready".
pub mod Ready
use mathlib.Core.Option
use Prim.Native.Nat.{Ordering}
use Prim.Native.String.{String, compare}
use tenacious.Prelude.{
  ℕ, ◌-◌, Bool, true, false, Option, Result, ok, M, pure, ◌>>=◌, Ref, Poll, ready, ltb,
  if◌then◌else◌,
}
use tenacious.State.{RetryState}
use tenacious.Float.{Float}
use tenacious.Predicate.{ok_when}
use tenacious.Decision.{result_outcome}
use tenacious.Stop.{attempts, after_attempts}
use tenacious.Wait.Strategies.{fixed, fixed_wait}
use tenacious.Clock.{AsyncClock}
use tenacious.Engine.Async.{AsyncRetry}
use tenacious.Engine.Async.Builder.{with_clock}
use tenacious.Policy
use tenacious.Policy.{RetryPolicy, retry_async}

abbrev pub Status : Type 0
Status = Result String String

-- `*status == "ready"`
unfoldable pub is_ready : String → Bool
is_ready status = elim (compare status "ready") [ Ordering.eq ↦ true | _ ↦ false ]

module _ {World : Type 0} (checks_remaining : Ref World ℕ) where
  -- What the closure does before it makes its future. The cell holds a `u32`.
  unfoldable pub next_status : M World String
  next_status w =
      if ltb 0 (checks_remaining.get w)
      then ("deploying", checks_remaining.set (checks_remaining.get w - 1) w)
      else ("ready", w)

  -- The closure. Its future, the `async move` block, owns the status and is ready at once.
  unfoldable pub check_deploy_status : RetryState → M World String
  unfolding next_status
  check_deploy_status _ = next_status

  abbrev pub poll_status : String → M World (Poll Status × String)
  poll_status status = pure (ready (ok status), status)

  module _ (f : Float) where
    -- 10 attempts, and 25 ms between them.
    unfoldable pub deploy_policy : Option (RetryPolicy World String String Status)
    unfolding Policy.new Policy.with_stop Policy.with_wait Policy.until attempts after_attempts
        fixed fixed_wait is_ready ok_when
    deploy_policy =
        Option.map (λ self. Policy.until (ok_when (λ status. pure (is_ready status))) self)
          (Option.map (λ self. Policy.with_wait (fixed_wait (fixed 25_000_000)) self)
            (Option.bind (Policy.new f result_outcome) (λ self.
              Option.map (λ stop. Policy.with_stop (after_attempts stop) self) (attempts 10))))

    module _ {Timer : Type 0} (system clock : AsyncClock World Timer) where
      -- `clock` is the `TokioClock`.
      unfoldable pub deploy_retry : Option (AsyncRetry World String Timer String String Status)
      unfolding deploy_policy check_deploy_status retry_async with_clock Option.bind
      deploy_retry =
          Option.map
            (λ policy. with_clock clock (retry_async system poll_status policy check_deploy_status))
            deploy_policy
