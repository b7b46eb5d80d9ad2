-- ===== src/Engine/Async/Converse.antt =====
-- What a result of the future of src/engine/async_engine.rs says of the loop of src/engine/mod.rs.
use tenacious.Prelude.{
  ℕ, zero, suc, ◌≤◌, Option, none, some, ◌≡◌, ◌↔◌, inl, inr, M, arith, Bool-cases, ◌==◌,
}
use tenacious.Duration.{Duration}
use tenacious.State.{RetryState}
use tenacious.Engine.Step
use tenacious.Engine.Step.{Step}
use tenacious.Engine.Sync.{
  Retry, Cursor, Finished, start, elapsed, before_state, progress_of, resume, loop, round, run,
}
use tenacious.Engine.Async.{
  AsyncRetry, Phase, bump, into_run, after_turn, after_poll, after_step, on_polled, turn, poll_loop,
  baseline, poll, block_on,
}
use tenacious.Engine.Async.Reaches.{Completes, at_once, later, at, resume_with}
use tenacious.Engine.Async.Parity.{blocking, block_on-run}

module _ {World Fut WaitFut R A O : Type 0} (self : AsyncRetry World Fut WaitFut R A O)
    (op : RetryState → M World O) (wait : Duration → M World (Unit {0}))
    (op_completes : (state : RetryState) (w : World)
      → let call = self.op state w in
        Completes self.poll_op call.0 call.1 (op state w).0 (op state w).1)
    (sleep_completes : (delay : Duration) (w : World)
      → let call = self.clock.wait_async delay w in
        Completes self.clock.poll_wait call.0 call.1 tt (wait delay w).1)
    (origin : Duration) where
  abbrev blocked : Retry World R A O
  blocked = blocking self op wait

  -- What the blocking loop does once its operation has returned.
  abbrev rest : Cursor → O → World → ℕ → Option (Finished R A O) × World
  rest c outcome w fuel =
      let (post_elapsed, read) = elapsed self.clock.now origin w in
      let next =
        Step.step (progress_of c post_elapsed) outcome self.classifier self.stop self.wait
          self.timeout self.hooks read in
      resume (loop fuel blocked origin) blocked.clock c next.0 next.1

  -- A phase of the future, and what is left of the blocking loop there, on its fuel.
  data Stage
      : Phase Fut WaitFut → Cursor → World → (ℕ → Option (Finished R A O) × World) → Type 0 where
    starts :
        {c : Cursor} {w : World}
        → Stage Phase.ready_to_start c w (λ fuel. loop fuel blocked origin c w)
    calls :
        {c : Cursor} {fut : Fut} {w v : World} {outcome : O}
        → Completes self.poll_op fut w outcome v
        → Stage (Phase.polling fut) c w (rest c outcome v)
    sleeps :
        {c : Cursor} {fut : WaitFut} {w v : World}
        → Completes self.clock.poll_wait fut w tt v
        → Stage (Phase.sleeping fut) c w (λ fuel. loop fuel blocked origin (bump c) v)

  -- The blocking computation gives the same with some fuel.
  abbrev Given : (ℕ → Option (Finished R A O) × World) → Finished R A O → World → Type 0
  Given g f w' = (fuel : ℕ) × (g fuel ≡ (some f, w'))

  module _ {f : Finished R A O} {w' : World} where
    after_step-Given :
        (n k j : ℕ) (phase : Phase Fut WaitFut) (c : Cursor) (next : Step R A O) (v : World)
        → ((phase : Phase Fut WaitFut) (c : Cursor) (v : World)
              (g : ℕ → Option (Finished R A O) × World)
            → Stage phase c v g
            → resume_with self origin n k j (at self origin phase c) v ≡ (some f, w')
            → Given g f w')
        → (let t = after_step (at self origin phase c) next v in
            let u = after_turn (poll_loop j origin) t.0.0 t.0.1 t.1 in
            after_poll (block_on n k) u.0.0 u.0.1 u.1)
          ≡ (some f, w')
        → Given (λ fuel. resume (loop fuel blocked origin) blocked.clock c next v) f w'
    unfolding after_step resume
    after_step-Given n k j phase c (Step.done result stats) v more h = (0, h)
    after_step-Given n k j phase c (Step.again delay running) v more h =
        elim (Bool-cases (delay == 0)) [
          | inl e ↦ rw e (more _ _ _ _ starts (rw e at h))
          | inr e ↦ rw e (more _ _ _ _ (sleeps (sleep_completes delay v)) (rw e at h))
        ]

    no_result : {v : World} → ◌≡◌ {A = Option (Finished R A O) × World} (none, v) (some f, w') → ⊥
    no_result h = cc

    -- A result of the future is one of the loop.
    back :
        (n j k : ℕ) (phase : Phase Fut WaitFut) (c : Cursor) (w : World)
        (g : ℕ → Option (Finished R A O) × World)
        → Stage phase c w g
        → resume_with self origin n k j (at self origin phase c) w ≡ (some f, w')
        → Given g f w'
    unfolding poll_loop turn on_polled block_on poll loop round elapsed
    back n zero k phase c w g s h = cc
    back n (suc j) k _ c w _ starts h =
        let began = elapsed self.clock.now origin w in
        let ready_to_call = self.hooks.before_attempt (before_state c began.0) began.1 in
        let (fuel, e) =
          back n j k _ c _ _ (calls (op_completes (before_state c began.0) ready_to_call.1)) h in
        (suc fuel, e)
    back n (suc j) k _ c w _ (calls {fut = fut} (at_once e)) h =
        after_step-Given n k j (Phase.polling fut) c _ _ (back n j k) (rw e at h)
    back zero (suc j) k _ c w _ (calls (later e more)) h = absurd (no_result (rw e at h))
    back (suc n) (suc j) k _ c w _ (calls (later e more)) h =
        back n k k _ c _ _ (calls more) (rw e at h)
    back n (suc j) k _ c w _ (sleeps (at_once e)) h = back n j k _ _ _ _ starts (rw e at h)
    back zero (suc j) k _ c w _ (sleeps (later e more)) h = absurd (no_result (rw e at h))
    back (suc n) (suc j) k _ c w _ (sleeps (later e more)) h =
        back n k k _ c _ _ (sleeps more) (rw e at h)

module _ {World Fut WaitFut R A O : Type 0} (self : AsyncRetry World Fut WaitFut R A O)
    (op : RetryState → M World O) (wait : Duration → M World (Unit {0}))
    (op_completes : (state : RetryState) (w : World)
      → let call = self.op state w in
        Completes self.poll_op call.0 call.1 (op state w).0 (op state w).1)
    (sleep_completes : (delay : Duration) (w : World)
      → let call = self.clock.wait_async delay w in
        Completes self.clock.poll_wait call.0 call.1 tt (wait delay w).1) where
  -- What an executor gets, the blocking loop gives with some fuel.
  pub run-block_on :
      (p k : ℕ) (w : World) {f : Finished R A O} {w' : World}
      → block_on p k (into_run self) w ≡ (some f, w')
      → (n : ℕ) × (run n (blocking self op wait) w ≡ (some f, w'))
  unfolding block_on poll baseline into_run run
  run-block_on zero k w h = absurd (no_result self op wait op_completes sleep_completes 0 h)
  run-block_on (suc p) k w h =
      back self op wait op_completes sleep_completes (self.clock.now w).0 p k k Phase.ready_to_start
        start (self.clock.now w).1 _ starts h

  -- Every executor gets this that polls often enough, with enough fuel in each poll.
  abbrev pub Eventually : World → Finished R A O → World → Type 0
  Eventually w f w' =
      (polls : ℕ) × (fuel : ℕ) × ((p k : ℕ)
        → polls ≤ p
        → fuel ≤ k
        → block_on p k (into_run self) w ≡ (some f, w'))

  -- The async and the sync engine give the same results. Suppose that each of the operation's
  -- futures, polled until it is ready, ends with the outcome and the world of a blocking operation,
  -- and each of the clock's futures with the world of a blocking wait. Then a result with its stats
  -- and a last world are what `run` of the sync builder with these two and the same other parts gives
  -- with some fuel, exactly when they are what some executor gets from the async future, with some
  -- number of polls and some fuel for each, and exactly when they are what every executor gets that
  -- polls often enough, with enough fuel in each poll.
  pub block_on-iff-run :
      (w : World) (f : Finished R A O) (w' : World)
      → (((p : ℕ) × (k : ℕ) × (block_on p k (into_run self) w ≡ (some f, w')))
          ↔ ((n : ℕ) × (run n (blocking self op wait) w ≡ (some f, w'))))
        × (((n : ℕ) × (run n (blocking self op wait) w ≡ (some f, w'))) ↔ Eventually w f w')
  block_on-iff-run w f w' =
      let onward = λ (r : (n : ℕ) × (run n (blocking self op wait) w ≡ (some f, w'))).
        block_on-run self op wait op_completes sleep_completes r.0 w r.1 in
      let at_last = λ (e : Eventually w f w'). e.2 e.0 e.1 (omega arith) (omega arith) in
      (
        (λ (p, k, h). run-block_on p k w h, λ r. ((onward r).0, (onward r).1, at_last (onward r))),
        (onward, λ e. run-block_on e.0 e.1 w (at_last e)),
      )
