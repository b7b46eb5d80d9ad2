-- ===== src/Engine/Async/Parity.antt =====
-- The async loop of src/engine/async_engine.rs beside the sync loop of src/engine/mod.rs.
use tenacious.Prelude.{ℕ, zero, suc, ◌+◌, ◌≤◌, Option, some, ◌≡◌, refl, ap, inl, inr, M, arith}
use tenacious.Prelude.{Bool-cases, ◌==◌, ready}
use mathlib.Core.Option.{some-injective}
use tenacious.Duration.{Duration}
use tenacious.State.{RetryState}
use tenacious.Engine.Step.{Step}
use tenacious.Engine.Sync.{Retry, Cursor, Finished, start, next_cursor, resume, loop, round, run}
use tenacious.Engine.Async.{
  AsyncRetry, Phase, bump, into_run, after_step, on_polled, turn, baseline, poll, block_on,
}
use tenacious.Engine.Async.Reaches.{
  Completes, at_once, later, at, resume_with, Reaches, Goes, Goes-Reaches, pending-Reaches,
}

module _ {World Fut WaitFut R A O : Type 0} where
  -- The sync builder with the same parts, for a blocking operation and a blocking wait.
  abbrev pub blocking :
      AsyncRetry World Fut WaitFut R A O
      → (RetryState → M World O)
      → (Duration → M World (Unit {0}))
      → Retry World R A O
  blocking self op wait = record {
    op = op;
    classifier = self.classifier;
    stop = self.stop;
    wait = self.wait;
    clock = record { now = self.clock.now; wait = wait };
    hooks = self.hooks;
    timeout = self.timeout;
  }

module _ {World Fut WaitFut R A O : Type 0} (self : AsyncRetry World Fut WaitFut R A O)
    (origin : Duration) {f : Finished R A O} {w' : World} where
  polling_lem :
      (c : Cursor) (fut : Fut) (v : World) {a : O} {v' : World}
      → Completes self.poll_op fut v a v'
      → ((phase : Phase Fut WaitFut) (fut' : Fut)
          → Goes self origin (on_polled origin (at self origin phase c) (ready a, fut') v') f w')
      → Reaches self origin (Phase.polling fut) c v f w'
  unfolding turn on_polled
  polling_lem c fut v (at_once {fut' = fut'} e) after =
      Goes-Reaches self origin (Phase.polling fut) c v (rw e (after (Phase.polling fut) fut'))
  polling_lem c fut v (later {fut' = fut'} {v = u} e more) after =
      pending-Reaches self origin (Phase.polling fut) c v (rw e refl)
        (polling_lem c fut' u more after)

  sleeping_lem :
      (c : Cursor) (fut : WaitFut) (v : World) {v' : World}
      → Completes self.clock.poll_wait fut v tt v'
      → Reaches self origin Phase.ready_to_start (bump c) v' f w'
      → Reaches self origin (Phase.sleeping fut) c v f w'
  unfolding turn
  sleeping_lem c fut v {v'} (at_once e) after =
      Goes-Reaches self origin (Phase.sleeping fut) c v
        (inl (Phase.ready_to_start, bump c, v', rw e refl, after))
  sleeping_lem c fut v (later {fut' = fut'} {v = u} e more) after =
      pending-Reaches self origin (Phase.sleeping fut) c v (rw e refl)
        (sleeping_lem c fut' u more after)

  module _ (wait : Duration → M World (Unit {0}))
      (sleep_completes : (delay : Duration) (w : World)
        → let call = self.clock.wait_async delay w in
          Completes self.clock.poll_wait call.0 call.1 tt (wait delay w).1) where
    settled :
        (go : Cursor → M World (Option (Finished R A O)))
        → ((c : Cursor) (v : World)
            → go c v ≡ (some f, w')
            → Reaches self origin Phase.ready_to_start c v f w')
        → (phase : Phase Fut WaitFut) (c : Cursor) (v : World) (next : Step R A O)
        → resume go (record { now = self.clock.now; wait = wait }) c next v ≡ (some f, w')
        → Goes self origin (after_step (at self origin phase c) next v) f w'
    unfolding resume after_step
    settled go more phase c v (Step.done result stats) h = inr (
      at self origin Phase.done c,
      let same = some-injective _ _ (ap (λ p. p.0) h) in
          let there = ap (λ p. p.1) h in rw same (rw there refl),
    )
    settled go more phase c v (Step.again delay running) h = elim (Bool-cases (delay == 0)) [
      | inl zero_delay ↦ rw zero_delay (
          inl (
            Phase.ready_to_start,
            next_cursor c delay running,
            v,
            refl,
            more (next_cursor c delay running) v (rw zero_delay at h),
          ))
      | inr positive ↦ rw positive (
          inl (
            Phase.sleeping (self.clock.wait_async delay v).0,
            record c { total_wait = running; previous_delay = some delay },
            (self.clock.wait_async delay v).1,
            refl,
            sleeping_lem _ _ _ (sleep_completes delay v)
                (more (next_cursor c delay running) _ (rw positive at h)),
          ))
    ]

    module _ (op : RetryState → M World O)
        (op_completes : (state : RetryState) (w : World)
          → let call = self.op state w in
            Completes self.poll_op call.0 call.1 (op state w).0 (op state w).1) where
      loop-Reaches :
          (fuel : ℕ) (c : Cursor) (w : World)
          → loop fuel (blocking self op wait) origin c w ≡ (some f, w')
          → Reaches self origin Phase.ready_to_start c w f w'
      unfolding loop round turn on_polled
      loop-Reaches zero c w h = cc
      loop-Reaches (suc fuel) c w h = Goes-Reaches self origin Phase.ready_to_start c w (
          inl (
            _,
            c,
            _,
            refl,
            polling_lem c _ _ (op_completes _ _) (λ phase fut'.
                settled (loop fuel (blocking self op wait) origin) (loop-Reaches fuel) phase c _ _
                  h),
          ))

module _ {World Fut WaitFut R A O : Type 0} (self : AsyncRetry World Fut WaitFut R A O)
    (op : RetryState → M World O) (wait : Duration → M World (Unit {0}))
    (op_completes : (state : RetryState) (w : World)
      → let call = self.op state w in
        Completes self.poll_op call.0 call.1 (op state w).0 (op state w).1)
    (sleep_completes : (delay : Duration) (w : World)
      → let call = self.clock.wait_async delay w in
        Completes self.clock.poll_wait call.0 call.1 tt (wait delay w).1) where
  first_poll :
      (w : World) {f : Finished R A O} {w' : World} (polls fuel turns : ℕ)
      → ((p k j : ℕ)
          → polls ≤ p
          → fuel ≤ k
          → turns ≤ j
          → resume_with self
              (self.clock.now w).0
              p
              k
              j
              (at self (self.clock.now w).0 Phase.ready_to_start start)
              (self.clock.now w).1
            ≡ (some f, w'))
      → (p k : ℕ) → suc polls ≤ p
      → fuel + turns ≤ k
      → block_on p k (into_run self) w ≡ (some f, w')
  unfolding block_on poll baseline into_run
  first_poll w polls fuel turns enough zero k a b = absurd (omega arith)
  first_poll w polls fuel turns enough (suc p) k a b =
      enough p k k (omega arith) (omega arith) (omega arith)

  -- Suppose that each of the operation's futures, polled until it is ready, ends with the outcome
  -- and the world of a blocking operation, and each of the clock's futures with the world of a
  -- blocking wait. Whenever `run` of the sync builder with these two and the same other parts
  -- returns, the async future returns the same result with the same stats in the same world, for
  -- every executor that polls it often enough, with enough fuel in each poll.
  pub block_on-run :
      (n : ℕ) (w : World) {f : Finished R A O} {w' : World}
      → run n (blocking self op wait) w ≡ (some f, w')
      → (polls : ℕ) × (fuel : ℕ) × ((p k : ℕ)
          → polls ≤ p
          → fuel ≤ k
          → block_on p k (into_run self) w ≡ (some f, w'))
  unfolding run
  block_on-run n w {f} {w'} h =
      let (polls, fuel, turns, enough) =
        loop-Reaches self _ wait sleep_completes op op_completes n start (self.clock.now w).1 h in
      (suc polls, fuel + turns, first_poll w polls fuel turns enough)
