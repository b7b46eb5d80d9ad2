-- ===== src/Engine/Async/Spec.antt =====
-- What the future of src/engine/async_engine.rs promises, without polls, clocks, waits or hooks.
use tenacious.Prelude.{ℕ, suc, ◌-◌, ◌≤◌, some, none, ◌≡◌, leb, ap, M}
use tenacious.State.{RetryState}
use tenacious.Duration.{Duration}
use tenacious.Decision.{Verdict}
use tenacious.Engine.Sync.{Finished, u32_max, run}
use tenacious.Engine.Sync.Spec.{resolve, Follows}
use tenacious.Engine.Sync.Spec.Refinement.{run-Meets}
use tenacious.Engine.Sync.Spec.Stateless.{stateless-Follows}
use tenacious.Engine.Async.{AsyncRetry, into_run, block_on}
use tenacious.Engine.Async.Reaches.{Completes}
use tenacious.Engine.Async.Parity.{blocking, block_on-run}

module _ {World Fut WaitFut R A O : Type 0} (self : AsyncRetry World Fut WaitFut R A O)
    (op : RetryState → M World O) (wait : Duration → M World (Unit {0}))
    (op_completes : (state : RetryState) (w : World)
      → let call = self.op state w in
        Completes self.poll_op call.0 call.1 (op state w).0 (op state w).1)
    (sleep_completes : (delay : Duration) (w : World)
      → let call = self.clock.wait_async delay w in
        Completes self.clock.poll_wait call.0 call.1 tt (wait delay w).1)
    (classify : O → Verdict R A O) (outcomes : ℕ → O) (Before : ℕ → World → Type 0) where
  -- The future refines the specification of the blocking loop, also where the operation has a state.
  -- Suppose that each of the operation's futures, polled until it is ready, ends with the outcome and
  -- the world of a blocking operation, and each of the clock's futures with the world of a blocking
  -- wait; that the blocking operation, called for the `k`th time, has the `k`th outcome as long as
  -- `Before k` holds of the world, makes `Before (k + 1)` hold, and no other part disturbs it; that
  -- the classifier's verdicts depend on the outcome alone, that the stop strategy stops from the `n`th
  -- attempt on and not before, with `n` a `u32` that is not 0, and that there is no timeout. Then
  -- there are a number of polls and an amount of fuel from which on every executor gets the same
  -- result from a world where `Before 1` holds, with the same stats and in the same world: the answer
  -- of the specification, with its number of attempts, and `Before` holds for the next number.
  pub block_on-Meets :
      (n : ℕ) (w : World)
      → Follows Before classify outcomes (blocking self op wait)
      → n ≤ u32_max
      → ((state : RetryState) (v : World) → (self.stop state v).0 ≡ leb n state.attempt)
      → self.timeout ≡ none
      → 1 ≤ n
      → Before 1 w
      → let answer = resolve classify outcomes (n - 1) 1 in
        (f : Finished R A O) × (w' : World) × ((polls : ℕ) × (fuel : ℕ) × ((p k : ℕ)
            → polls ≤ p
            → fuel ≤ k
            → block_on p k (into_run self) w ≡ (some f, w')))
        × (f.0 ≡ answer.0)
        × (f.1.attempts ≡ answer.1)
        × Before (suc answer.1) w'
  block_on-Meets n w follows small stops unlimited pos fresh =
      let blocked = blocking self op wait in
      let (f, e, result, count, after) =
        run-Meets blocked classify outcomes Before follows n small stops unlimited w pos fresh in
      (
        f,
        (run n blocked w).1,
        block_on-run self op wait op_completes sleep_completes n w
            (ap (λ o. (o, (run n blocked w).1)) e),
        result,
        count,
        after,
      )

module _ {World Fut WaitFut R A O : Type 0} (self : AsyncRetry World Fut WaitFut R A O)
    (op : RetryState → M World O) (wait : Duration → M World (Unit {0}))
    (op_completes : (state : RetryState) (w : World)
      → let call = self.op state w in
        Completes self.poll_op call.0 call.1 (op state w).0 (op state w).1)
    (sleep_completes : (delay : Duration) (w : World)
      → let call = self.clock.wait_async delay w in
        Completes self.clock.poll_wait call.0 call.1 tt (wait delay w).1)
    (classify : O → Verdict R A O) (outcomes : ℕ → O)
    (classified : (outcome : O) (w : World) → (self.classifier outcome w).0 ≡ classify outcome)
    (delivered : (state : RetryState) (w : World) → (op state w).0 ≡ outcomes state.attempt) where
  -- The future refines the specification of the blocking loop. Suppose that each of the operation's
  -- futures, polled until it is ready, ends with the outcome and the world of a blocking operation,
  -- whose outcomes depend on the number of the attempt alone, that each of the clock's futures ends
  -- with the world of a blocking wait, that the classifier's verdicts depend on the outcome alone,
  -- that the stop strategy stops from the `n`th attempt on and not before, with `n` a `u32` that is
  -- not 0, and that there is no timeout. Then there are a number of polls and an amount of fuel from
  -- which on every executor gets the same result, with the same stats and in the same world: the
  -- answer of the specification, with its number of attempts.
  pub block_on-resolve :
      (n : ℕ) (w : World)
      → n ≤ u32_max
      → ((state : RetryState) (v : World) → (self.stop state v).0 ≡ leb n state.attempt)
      → self.timeout ≡ none
      → 1 ≤ n
      → (f : Finished R A O) × (w' : World) × ((polls : ℕ) × (fuel : ℕ) × ((p k : ℕ)
            → polls ≤ p
            → fuel ≤ k
            → block_on p k (into_run self) w ≡ (some f, w')))
        × (f.0 ≡ (resolve classify outcomes (n - 1) 1).0)
        × (f.1.attempts ≡ (resolve classify outcomes (n - 1) 1).1)
  block_on-resolve n w small stops unlimited pos =
      let (f, w', ends, result, count, _) =
        block_on-Meets self op wait op_completes sleep_completes classify outcomes (λ k v. Unit) n w
          (stateless-Follows (blocking self op wait) classify outcomes classified delivered) small
          stops unlimited pos tt in
      (f, w', ends, result, count)
