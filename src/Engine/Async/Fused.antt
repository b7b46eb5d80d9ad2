-- ===== src/Engine/Async/Fused.antt =====
-- The `Done` phase of src/engine/async_engine.rs.
use tenacious.Prelude.{Bool, true, false, if◌then◌else◌, ◌==◌}
use tenacious.Prelude.{ℕ, zero, suc, ◌≡◌, refl, Option, some, none, M, Poll, pending, ready}
use tenacious.Duration.{Duration}
use tenacious.Engine.Step.{Step}
use tenacious.Engine.Sync.{Finished, elapsed}
use tenacious.Engine.Async.{
  AsyncRun, Phase, Turn, Polled, begin_attempt, after_step, on_polled, on_slept, turn_in, turn,
  after_turn, poll_loop, baseline, poll,
}

module _ {World Fut WaitFut R A O : Type 0} where
  -- A turn that returns a result leaves the phase `Done`.
  abbrev Closes : (Turn R A O × AsyncRun World Fut WaitFut R A O) × World → Type 0
  Closes t = (f : Finished R A O) → t.0.0 ≡ Turn.return (ready f) → t.0.1.phase ≡ Phase.done

  if-Closes :
      (b : Bool) (x y : M World (Turn R A O × AsyncRun World Fut WaitFut R A O)) (w : World)
      → Closes (x w)
      → Closes (y w)
      → Closes ((if b then x else y) w)
  if-Closes true x y w p q = p
  if-Closes false x y w p q = q

  after_step-Closes :
      (self : AsyncRun World Fut WaitFut R A O) (next : Step R A O) (w : World)
      → Closes (after_step self next w)
  unfolding after_step
  after_step-Closes self (Step.done result stats) w f h = refl
  after_step-Closes self (Step.again delay running) w f h =
      if-Closes (delay == 0) _ _ w (λ g e. cc) (λ g e. cc) f h

  on_polled-Closes :
      (origin : Duration) (self : AsyncRun World Fut WaitFut R A O) (polled : Poll O × Fut)
      (w : World)
      → Closes (on_polled origin self polled w)
  unfolding on_polled elapsed
  on_polled-Closes origin self (pending, fut) w f h = cc
  on_polled-Closes origin self (ready a, fut) w f h = search after_step-Closes

  on_slept-Closes :
      (self : AsyncRun World Fut WaitFut R A O) (polled : Poll (Unit {0}) × WaitFut) (w : World)
      → Closes (on_slept self polled w)
  unfolding on_slept
  on_slept-Closes self (pending, fut) w f h = cc
  on_slept-Closes self (ready _, fut) w f h = cc

  turn_in-Closes :
      (origin : Duration) (phase : Phase Fut WaitFut) (self : AsyncRun World Fut WaitFut R A O)
      (w : World)
      → Closes (turn_in origin phase self w)
  unfolding turn_in begin_attempt
  turn_in-Closes origin Phase.ready_to_start self w f h = cc
  turn_in-Closes origin (Phase.polling fut) self w f h =
      on_polled-Closes origin self (self.retry.poll_op fut w).0 (self.retry.poll_op fut w).1 f h
  turn_in-Closes origin (Phase.sleeping fut) self w f h =
      let polled = self.retry.clock.poll_wait fut w in on_slept-Closes self polled.0 polled.1 f h
  turn_in-Closes origin Phase.done self w f h = cc

  abbrev Ends : (Polled R A O × AsyncRun World Fut WaitFut R A O) × World → Type 0
  Ends t = (f : Finished R A O) → t.0.0 ≡ Polled.returned (ready f) → t.0.1.phase ≡ Phase.done

  after_turn-Ends :
      (rest : AsyncRun World Fut WaitFut R A O
        → M World (Polled R A O × AsyncRun World Fut WaitFut R A O))
      → ((self : AsyncRun World Fut WaitFut R A O) (w : World) → Ends (rest self w))
      → (next : Turn R A O) (self : AsyncRun World Fut WaitFut R A O) (w : World)
      → Closes ((next, self), w)
      → Ends (after_turn rest next self w)
  after_turn-Ends rest more Turn.go_on self w c f h = more self w f h
  after_turn-Ends rest more (Turn.return pending) self w c f h = cc
  after_turn-Ends rest more (Turn.return (ready g)) self w c f h = c g refl
  after_turn-Ends rest more Turn.panic self w c f h = cc

  poll_loop-Ends :
      (fuel : ℕ) (origin : Duration) (self : AsyncRun World Fut WaitFut R A O) (w : World)
      → Ends (poll_loop fuel origin self w)
  unfolding poll_loop turn
  poll_loop-Ends zero origin self w = λ f h. cc
  poll_loop-Ends (suc fuel) origin self w =
      after_turn-Ends (poll_loop fuel origin) (poll_loop-Ends fuel origin) _ _ _
        (turn_in-Closes origin self.phase self w)

  poll-Ends :
      (fuel : ℕ) (self : AsyncRun World Fut WaitFut R A O) (w : World) → Ends (poll fuel self w)
  unfolding poll
  poll-Ends fuel self w = poll_loop-Ends fuel _ _ _

  pub panics :
      (fuel : ℕ) (self : AsyncRun World Fut WaitFut R A O) (w : World) (origin : Option Duration)
      → self.phase ≡ Phase.done
      → let started = baseline self origin w in
        (poll_loop (suc fuel) started.0.0 started.0.1 started.1).0.0 ≡ Polled.panicked
  unfolding poll_loop turn turn_in baseline
  panics fuel self w none h = rw h refl
  panics fuel self w (some origin) h = rw h refl

  -- Once a poll has returned a result, a further poll of the same future panics, in every world
  -- and with any fuel but 0 for its loop.
  pub poll-poll :
      (n m : ℕ) (self : AsyncRun World Fut WaitFut R A O) (w v : World) {f : Finished R A O}
      → (poll n self w).0.0 ≡ Polled.returned (ready f)
      → (poll (suc m) (poll n self w).0.1 v).0.0 ≡ Polled.panicked
  unfolding poll
  poll-poll n m self w v {f} h =
      let after = (poll n self w).0.1 in panics m after v after.origin (poll-Ends n self w f h)
