-- ===== src/Policy/Laws.antt =====
-- What the policy of src/policy/mod.rs builds, beside the builders of the two engines.
use tenacious.Prelude.{ℕ, ◌≤◌, some, ◌≡◌, refl, ap, M, Result, Poll}
use tenacious.Duration.{Duration}
use tenacious.State.{RetryState}
use mathlib.Core.Option
use tenacious.Float.{Float}
use tenacious.Decision.{Outcome}
use tenacious.Predicate.{Predicate}
use tenacious.Stop.{attempts, Stop, StopsBy}
use tenacious.Wait.{Wait}
use tenacious.Clock.{SyncClock, AsyncClock}
use tenacious.Engine.Op.{RetryOp}
use tenacious.Engine.Sync.{Finished, u32_max, run}
use tenacious.Engine.Sync.Builder
use tenacious.Engine.Sync.Outcome.{run_total}
use tenacious.Engine.Async.{into_run, block_on}
use tenacious.Engine.Async.Reaches.{Completes}
use tenacious.Engine.Async.Parity.{block_on-run}
use tenacious.Engine.Async.Builder as AsyncBuilder
use tenacious.Policy
use tenacious.Policy.{RetryPolicy, retry, retry_async}

-- Configuring a policy and then building a retry is building the retry and then configuring it:
-- for the stop, wait and timeout setters and, for a `Result` outcome, for `when` and `until`. Boxing
-- the policy's strategies changes nothing in the retry.
retry-setters :
    {World T E : Type 0} (system : SyncClock World) (p : RetryPolicy World T E (Result T E))
    (op : RetryOp World (Result T E)) (stop : Stop World) (wait : Wait World) (dur : Duration)
    (predicate : Predicate World T E)
    → (retry system (Policy.with_stop stop p) op ≡ Builder.with_stop stop (retry system p op))
      × (retry system (Policy.with_wait wait p) op ≡ Builder.with_wait wait (retry system p op))
      × (retry system (Policy.with_timeout dur p) op ≡ Builder.with_timeout dur (retry system p op))
      × (retry system (Policy.when predicate p) op ≡ Builder.when predicate (retry system p op))
      × (retry system (Policy.until predicate p) op ≡ Builder.until predicate (retry system p op))
      × (retry system (Policy.boxed p) op ≡ retry system p op)
      × (retry system (Policy.boxed_local p) op ≡ retry system p op)
unfolding retry Policy.boxed Policy.boxed_local Policy.with_stop Policy.with_wait
    Policy.with_timeout Policy.when Policy.until Builder.with_stop Builder.with_wait
    Builder.with_timeout Builder.when Builder.until
retry-setters system p op stop wait dur predicate = (refl, refl, refl, refl, refl, refl, refl)

module _ {World Fut WaitFut R A O : Type 0} (p : RetryPolicy World R A O)
    (timers : AsyncClock World WaitFut) (wait : Duration → M World (Unit {0}))
    (poll_op : Fut → M World (Poll O × Fut)) (op : RetryOp World O) (async_op : RetryOp World Fut)
    (op_completes : (state : RetryState) (w : World)
      → let call = async_op state w in
        Completes poll_op call.0 call.1 (op state w).0 (op state w).1)
    (sleep_completes : (delay : Duration) (w : World)
      → let call = timers.wait_async delay w in
        Completes timers.poll_wait call.0 call.1 tt (wait delay w).1) where
  -- The blocking clock with the same readings.
  abbrev twin : SyncClock World
  twin = record { now = timers.now; wait = wait }

  -- One policy drives both engines alike. Suppose that the two clocks read the same time, that
  -- the operation's futures complete as the blocking operation does and the clock's futures as
  -- its blocking wait, and that the policy's stop strategy stops at the `n`th attempt at the
  -- latest, with `n` a `u32` that is not 0. Then the sync retry that the policy builds returns a
  -- result with its stats and a last world, and the async one returns the same three under every
  -- executor that polls it often enough with enough fuel.
  pub retry_async-retry :
      (n : ℕ) (w : World)
      → 1 ≤ n
      → n ≤ u32_max
      → StopsBy n p.stop
      → (f : Finished R A O) × (w' : World) × (run n (retry twin p op) w ≡ (some f, w'))
        × ((polls : ℕ) × (fuel : ℕ) × ((m k : ℕ)
              → polls ≤ m
              → fuel ≤ k
              → block_on m k (into_run (retry_async timers poll_op p async_op)) w ≡ (some f, w')))
  unfolding retry retry_async
  retry_async-retry n w pos small by =
      let blocking_retry = retry twin p op in
      let (f, e, _, _) = run_total blocking_retry n w pos small by in
      let w' = (run n blocking_retry w).1 in
      let ends : run n blocking_retry w ≡ (some f, w') = ap (λ o. (o, w')) e in
      (
        f,
        w',
        ends,
        block_on-run (retry_async timers poll_op p async_op) op wait op_completes sleep_completes n
            w ends,
      )

-- The default policy builds the default retry, for both engines.
retry-new :
    {World Fut WaitFut R A O : Type 0} (f : Float) (outcome : Outcome O R A)
    (system : SyncClock World) (op : RetryOp World O) (timers : AsyncClock World WaitFut)
    (poll_op : Fut → M World (Poll O × Fut)) (async_op : RetryOp World Fut)
    → (Option.map (λ p. retry system p op) (Policy.new f outcome)
        ≡ Builder.retry f system outcome op)
      × (Option.map (λ p. retry_async timers poll_op p async_op) (Policy.new f outcome)
          ≡ AsyncBuilder.retry_async f timers poll_op outcome async_op)
unfolding retry retry_async Policy.new Builder.retry Builder.from_op AsyncBuilder.retry_async
    AsyncBuilder.from_op attempts
retry-new f outcome system op timers poll_op async_op = (refl, refl)
