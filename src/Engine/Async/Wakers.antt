-- ===== src/Engine/Async/Wakers.antt =====
-- What the future of src/engine/async_engine.rs polled last when it is pending: that inner future
-- has the waker.
use tenacious.Prelude.{
  ◌≡◌, refl, ◌∙◌, ℕ, zero, suc, ◌==◌, Bool-cases, inl, inr, Option, some, none, M, Poll, pending,
  ready,
}
use tenacious.Duration.{Duration}
use tenacious.Engine.Step.{Step, step}
use tenacious.Engine.Sync.{elapsed, progress_of}
use tenacious.Engine.Async.{
  AsyncRetry, AsyncRun, Phase, Turn, Polled, begin_attempt, after_step, on_polled, on_slept,
  turn_in, turn, after_turn, poll_loop, baseline, poll,
}

module _ {World Fut WaitFut R A O : Type 0} where
  -- The future is in the phase of an inner future that has just been polled: that poll answered
  -- pending, left the inner future as the phase holds it, and the world as it is now.
  abbrev pub Parked : AsyncRetry World Fut WaitFut R A O → Phase Fut WaitFut → World → Type 0
  Parked self Phase.ready_to_start now = ⊥
  Parked self (Phase.polling fut) now =
      (old : Fut) × (w : World) × (self.poll_op old w ≡ ((pending, fut), now))
  Parked self (Phase.sleeping fut) now =
      (old : WaitFut) × (w : World) × (self.clock.poll_wait old w ≡ ((pending, fut), now))
  Parked self Phase.done now = ⊥

  -- What holds of the future once a poll gave this: parked when pending, done when ready.
  abbrev pub Settled :
      AsyncRetry World Fut WaitFut R A O → Polled R A O → Phase Fut WaitFut → World → Type 0
  Settled self (Polled.returned pending) phase now = Parked self phase now
  Settled self (Polled.returned (ready finished)) phase now = phase ≡ Phase.done
  Settled self Polled.panicked phase now = phase ≡ Phase.done
  Settled self Polled.ran_out phase now = Unit

  abbrev TurnSettled :
      AsyncRetry World Fut WaitFut R A O → Turn R A O → Phase Fut WaitFut → World → Type 0
  TurnSettled self Turn.go_on phase now = Unit
  TurnSettled self (Turn.return polled) phase now = Settled self (Polled.returned polled) phase now
  TurnSettled self Turn.panic phase now = phase ≡ Phase.done

  abbrev TurnSettles :
      AsyncRetry World Fut WaitFut R A O
      → (Turn R A O × AsyncRun World Fut WaitFut R A O) × World
      → Type 0
  TurnSettles self t = (t.0.1.retry ≡ self) × TurnSettled t.0.1.retry t.0.0 t.0.1.phase t.1

  abbrev PollSettles :
      AsyncRetry World Fut WaitFut R A O
      → (Polled R A O × AsyncRun World Fut WaitFut R A O) × World
      → Type 0
  PollSettles self t = (t.0.1.retry ≡ self) × Settled t.0.1.retry t.0.0 t.0.1.phase t.1

  after_step-TurnSettles :
      (run : AsyncRun World Fut WaitFut R A O) (next : Step R A O) (w : World)
      → TurnSettles run.retry (after_step run next w)
  unfolding after_step
  after_step-TurnSettles run (Step.done result stats) w = (refl, refl)
  after_step-TurnSettles run (Step.again delay running) w = elim (Bool-cases (delay == 0)) [
    | inl z ↦ rw z (refl, tt)
    | inr z ↦ rw z (refl, tt)
  ]

  on_polled-TurnSettles :
      (since : Duration) (run : AsyncRun World Fut WaitFut R A O) (old : Fut) (v : World)
      (answer : (Poll O × Fut) × World)
      → run.retry.poll_op old v ≡ answer
      → TurnSettles run.retry (on_polled since run answer.0 answer.1)
  unfolding on_polled elapsed
  on_polled-TurnSettles since run old v ((pending, fut), now) e = (refl, (old, v, e))
  on_polled-TurnSettles since run old v ((ready a, fut), now) e =
      let read = elapsed run.retry.clock.now since now in
      let next =
        step (progress_of run.cursor read.0) a run.retry.classifier run.retry.stop run.retry.wait
          run.retry.timeout run.retry.hooks read.1 in
      after_step-TurnSettles run next.0 next.1

  on_slept-TurnSettles :
      (run : AsyncRun World Fut WaitFut R A O) (old : WaitFut) (v : World)
      (answer : (Poll (Unit {0}) × WaitFut) × World)
      → run.retry.clock.poll_wait old v ≡ answer
      → TurnSettles run.retry (on_slept run answer.0 answer.1)
  unfolding on_slept
  on_slept-TurnSettles run old v ((pending, fut), now) e = (refl, (old, v, e))
  on_slept-TurnSettles run old v ((ready _, fut), now) e = (refl, tt)

  turn_in-TurnSettles :
      (since : Duration) (phase : Phase Fut WaitFut) (run : AsyncRun World Fut WaitFut R A O)
      (w : World)
      → run.phase ≡ phase
      → TurnSettles run.retry (turn_in since phase run w)
  unfolding turn_in begin_attempt
  turn_in-TurnSettles since Phase.ready_to_start run w e = (refl, tt)
  turn_in-TurnSettles since (Phase.polling fut) run w e =
      on_polled-TurnSettles since run fut w (run.retry.poll_op fut w) refl
  turn_in-TurnSettles since (Phase.sleeping fut) run w e =
      on_slept-TurnSettles run fut w (run.retry.clock.poll_wait fut w) refl
  turn_in-TurnSettles since Phase.done run w e = (refl, e)

  after_turn-PollSettles :
      (self : AsyncRetry World Fut WaitFut R A O)
      (rest : AsyncRun World Fut WaitFut R A O
        → M World (Polled R A O × AsyncRun World Fut WaitFut R A O))
      → ((run : AsyncRun World Fut WaitFut R A O) (w : World) → PollSettles run.retry (rest run w))
      → (next : Turn R A O) (run : AsyncRun World Fut WaitFut R A O) (w : World)
      → TurnSettles self ((next, run), w)
      → PollSettles self (after_turn rest next run w)
  after_turn-PollSettles self rest more Turn.go_on run w (same, _) =
      let (kept, settled) = more run w in (kept ∙ same, settled)
  after_turn-PollSettles self rest more (Turn.return polled) run w settles = settles
  after_turn-PollSettles self rest more Turn.panic run w settles = settles

  poll_loop-PollSettles :
      (fuel : ℕ) (since : Duration) (run : AsyncRun World Fut WaitFut R A O) (w : World)
      → PollSettles run.retry (poll_loop fuel since run w)
  unfolding poll_loop turn
  poll_loop-PollSettles zero since run w = (refl, tt)
  poll_loop-PollSettles (suc fuel) since run w =
      let t = turn since run w in
      after_turn-PollSettles run.retry (poll_loop fuel since) (poll_loop-PollSettles fuel since)
        t.0.0 t.0.1 t.1 (turn_in-TurnSettles since run.phase run w refl)

  -- A pending future waits for an inner future. Whatever a poll gives, the future keeps the builder's
  -- parts. If the poll is pending, then the future is neither at the start of an attempt nor done: it
  -- holds the operation's future or the clock's, as a poll of that inner future has left it that
  -- answered pending, and the world is as that poll left it. If the poll is ready or panics, then the
  -- future is done.
  pub poll-Settled :
      (fuel : ℕ) (run : AsyncRun World Fut WaitFut R A O) (w : World)
      → let t = poll fuel run w in
        (t.0.1.retry ≡ run.retry) × Settled t.0.1.retry t.0.0 t.0.1.phase t.1
  unfolding poll baseline
  poll-Settled fuel run w = started run.origin
    where
      started :
          (at : Option Duration)
          → let t = baseline run at w in PollSettles run.retry (poll_loop fuel t.0.0 t.0.1 t.1)
      started (some origin) = poll_loop-PollSettles fuel origin run w
      started none = poll_loop-PollSettles fuel _ _ _
