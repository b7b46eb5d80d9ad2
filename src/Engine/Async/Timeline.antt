-- ===== src/Engine/Async/Timeline.antt =====
-- The future of src/engine/async_engine.rs against the timeline of the blocking loop.
use tenacious.Prelude.{
  ℕ, suc, ◌≤◌, ◌++◌, Option, none, some, false, ◌≡◌, refl, ap, inl, inr, M, Ref, arith,
}
use tenacious.Duration.{Duration}
use tenacious.State.{RetryState}
use tenacious.Clock.Virtual.{VirtualClock}
use tenacious.Engine.Sync.{Finished, run}
use tenacious.Engine.Sync.Timeline.{
  Plan, Timed, Unfolds, IsFirst, due, answer, returned, pauses_before,
}
use tenacious.Engine.Sync.Timeline.First.{not_both, Answered, Unfolds-Answered}
use tenacious.Engine.Sync.Timeline.Run.{run-Unfolds}
use tenacious.Engine.Async.{AsyncRetry, into_run, block_on}
use tenacious.Engine.Async.Reaches.{Completes}
use tenacious.Engine.Async.Parity.{blocking, block_on-run}
use tenacious.Engine.Async.Converse.{run-block_on}

module _ {World Fut WaitFut R A O : Type 0} (self : AsyncRetry World Fut WaitFut R A O)
    (op : RetryState → M World O) (wait : Duration → M World (Unit {0}))
    (op_completes : (state : RetryState) (w : World)
      → let call = self.op state w in
        Completes self.poll_op call.0 call.1 (op state w).0 (op state w).1)
    (sleep_completes : (delay : Duration) (w : World)
      → let call = self.clock.wait_async delay w in
        Completes self.clock.poll_wait call.0 call.1 tt (wait delay w).1)
    (cell : Ref World VirtualClock) (Before : ℕ → World → Type 0) (plan : Plan R A O)
    (timed : Timed cell Before plan (blocking self op wait)) where
  -- What every executor gets that polls often enough, if the `i`th attempt is the first that is last.
  abbrev pub Answers : World → ℕ → Type 0
  Answers w i =
      let origin = (cell.get w).now in
      (w' : World) × ((polls : ℕ) × (fuel : ℕ) × ((p k : ℕ)
          → polls ≤ p
          → fuel ≤ k
          → block_on p k (into_run self) w ≡ (some (answer plan origin i), w')))
      × (cell.get w' ≡ record {
        now = returned plan origin i;
        waits = (cell.get w).waits ++ pauses_before plan origin i;
      })
      × Before (suc i) w'

  abbrev blocked : ℕ → World → Option (Finished R A O) × World
  blocked n w = run n (blocking self op wait) w

  answers :
      (w : World) (i : ℕ)
      → Answered cell Before plan (cell.get w).now (cell.get w).waits i (blocked (suc i) w)
      → Answers w i
  answers w i (e, clock, called) = (
    (blocked (suc i) w).1,
    block_on-run self op wait op_completes sleep_completes (suc i) w
        (ap (λ o. (o, (blocked (suc i) w).1)) e),
    clock,
    called,
  )

  nothing :
      (w : World) (n : ℕ) (f : Finished R A O)
      → ((i : ℕ) → due plan (cell.get w).now i ≡ false)
      → Unfolds cell Before plan (cell.get w).now (cell.get w).waits n (blocked n w)
      → (blocked n w).0 ≡ some f
      → ⊥
  nothing w n f never (inl (i, lt, (last, earlier), e, clock, called)) h = not_both last (never i)
  nothing w n f never (inr (none_due, e)) h = cc

  no_answer :
      (w : World) (p k : ℕ) (o : Option (Finished R A O)) (w' : World)
      → Before 0 w
      → ((i : ℕ) → due plan (cell.get w).now i ≡ false)
      → block_on p k (into_run self) w ≡ (o, w')
      → o ≡ none
  no_answer w p k none w' fresh never h = refl
  no_answer w p k (some f) w' fresh never h =
      let (n, e) = run-block_on self op wait op_completes sleep_completes p k w h in
      absurd (
        nothing w n f never (run-Unfolds cell Before plan (blocking self op wait) timed n w fresh)
          (ap (λ r. r.0) e))

  -- The future against its timeline, with times, waits and timeouts. Suppose that each of the
  -- operation's futures, polled until it is ready, ends with the outcome and the world of a blocking
  -- operation, and each of the clock's futures with the world of a blocking wait, and that the
  -- blocking retry with these two and the same other parts answers by the plan. If the `i`th attempt,
  -- counted from 0, is the first that is the last by the timeline, then in every world where `Before
  -- 0` holds there are a number of polls and an amount of fuel from which on every executor gets the
  -- timeline's answer and stats, the clock shows when that call returned and has recorded the waits
  -- before it, and `Before` holds of the next call.
  pub block_on-Answers :
      (w : World) (i : ℕ) → Before 0 w → IsFirst plan (cell.get w).now i → Answers w i
  block_on-Answers w i fresh first = answers w i (
      Unfolds-Answered cell Before plan (cell.get w).now (cell.get w).waits i (suc i) _ first
        (omega arith) (run-Unfolds cell Before plan (blocking self op wait) timed (suc i) w fresh))

  -- If no attempt is ever the last by the timeline, then no executor gets a result.
  block_on-none :
      (w : World) (p k : ℕ)
      → Before 0 w
      → ((i : ℕ) → due plan (cell.get w).now i ≡ false)
      → (block_on p k (into_run self) w).0 ≡ none
  block_on-none w p k fresh never =
      let t = block_on p k (into_run self) w in no_answer w p k t.0 t.1 fresh never refl
