-- ===== src/Examples/AsyncCancel/Undisturbed.antt =====
-- What the future of examples/async-cancel.rs ends with if nothing drops it.
use Prim.Native.String.{String}
use tenacious.Prelude.{ℕ, ◌≤◌, ◌≡◌, refl, ap, ◌∙◌, arith, some, err, M, pure, ◌>>=◌}
use tenacious.Duration.{Duration}
use tenacious.Float.{Float}
use tenacious.Decision.{default_classifier, result_outcome}
use tenacious.Stop.{attempts, after_attempts}
use tenacious.Clock.{AsyncClock}
use tenacious.Clock.Adapters.{Instants, Timers}
use tenacious.Clock.Adapters.Tokio.{TokioClock, async_clock}
use tenacious.Engine.Error.{RetryError}
use tenacious.Engine.Sync.{Finished}
use tenacious.Engine.Sync.Spec.{resolve}
use tenacious.Engine.Sync.Spec.Answers.{resolve-Retries}
use tenacious.Engine.Async.{AsyncRetry, into_run, block_on}
use tenacious.Engine.Async.Builder.{
  from_op, from_parts, retry_async, with_stop, with_wait, with_clock,
}
use tenacious.Engine.Async.Reaches.{Completes, at_once, later}
use tenacious.Engine.Async.Spec.{block_on-resolve}
use tenacious.Examples.AsyncCancel.{
  Reply, NetworkCall, created, awaiting, refusal, on_timer, poll_call, network_retry,
}

module _ {World Timer : Type 0} (timers : Timers World Duration Timer) (display : ℕ → String) where
  -- A call is as long under way as its timer.
  awaiting-Completes :
      (attempt : ℕ) {timer : Timer} {w v : World}
      → Completes timers.poll timer w tt v
      → Completes
          (poll_call timers display)
          (awaiting attempt timer)
          w
          (err (refusal display attempt))
          v
  unfolding poll_call
  awaiting-Completes attempt (at_once e) =
      at_once (ap (λ p. (on_timer timers display attempt p.0, p.1)) e)
  awaiting-Completes attempt (later e more) =
      later (ap (λ p. (on_timer timers display attempt p.0, p.1)) e)
        (awaiting-Completes attempt more)

  created-Completes :
      (attempt : ℕ) (w : World) {v : World}
      → Completes timers.poll (timers.after 40_000_000 w).0 (timers.after 40_000_000 w).1 tt v
      → Completes (poll_call timers display) (created attempt) w (err (refusal display attempt)) v
  unfolding poll_call
  created-Completes attempt w (at_once e) =
      at_once (ap (λ p. (on_timer timers display attempt p.0, p.1)) e)
  created-Completes attempt w (later e more) =
      later (ap (λ p. (on_timer timers display attempt p.0, p.1)) e)
        (awaiting-Completes attempt more)

  module _ (wait : Duration → M World (Unit {0}))
      (completes : (delay : Duration) (w : World)
        → let call = timers.after delay w in
          Completes timers.poll call.0 call.1 tt (wait delay w).1)
      {Instant : Type 0} (instants : Instants World Instant Duration) (f : Float)
      (system : AsyncClock World Timer) (origin : TokioClock Instant) where
    -- If nothing drops the future of the example, it makes all its attempts. Where every timer,
    -- polled until it is ready, ends with the world of a blocking wait, the future is built without a
    -- panic, and from every world every executor that polls often enough, with enough fuel, gets the
    -- same result: `Exhausted` after 10 attempts, with the error of the tenth.
    network_retry-exhausted :
        (w : World)
        → (self : AsyncRetry World (NetworkCall Timer) Timer String String Reply) × (network_retry
              timers display instants f system origin
            ≡ some self)
          × (g : Finished String String Reply) × (w' : World) × ((polls : ℕ) × (fuel : ℕ) × ((p
                  k : ℕ)
                → polls ≤ p
                → fuel ≤ k
                → block_on p k (into_run self) w ≡ (some g, w')))
          × (g.0 ≡ err (RetryError.exhausted (err (refusal display 10))))
          × (g.1.attempts ≡ 10)
    unfolding network_retry retry_async from_op from_parts attempts with_stop with_wait with_clock
        async_clock after_attempts default_classifier result_outcome
    network_retry-exhausted w =
        let outcomes : ℕ → Reply = λ k. err (refusal display k) in
        let stuck : resolve result_outcome.classify outcomes 9 1
            ≡ (err (RetryError.exhausted (err (refusal display 10))), 10) =
          resolve-Retries result_outcome.classify outcomes 9 1 (λ i a b. tt) in
        let (g, w', ends, result, count) =
          block_on-resolve _ (λ state. wait 40_000_000 >>= λ _. pure (outcomes state.attempt)) wait
            (λ state v. created-Completes state.attempt v (completes 40_000_000 v)) completes
            result_outcome.classify outcomes (λ outcome v. refl) (λ state v. refl) 10 w
            (omega arith) (λ state v. refl) refl (omega arith) in
        (_, refl, g, w', ends, result ∙ ap (λ a. a.0) stuck, count ∙ ap (λ a. a.1) stuck)
