-- ===== src/Engine/Async/Baseline.antt =====
-- The baseline of the elapsed time in src/engine/async_engine.rs.
use tenacious.Prelude.{
  ℕ, zero, suc, ◌≡◌, refl, ◌∙◌, Option, some, none, M, Bool, true, false, Poll, pending, ready,
}
use tenacious.Prelude.{◌==◌, if◌then◌else◌}
use tenacious.Duration.{Duration, unwrap_or}
use tenacious.Engine.Step.{Step}
use tenacious.Engine.Sync.{elapsed}
use tenacious.Engine.Async.{
  AsyncRun, Phase, Turn, Polled, begin_attempt, after_step, on_polled, on_slept, turn_in, turn,
  after_turn, poll_loop, baseline, poll,
}

module _ {World Fut WaitFut R A O : Type 0} where
  -- A turn keeps the baseline.
  abbrev Holds : Option Duration → (Turn R A O × AsyncRun World Fut WaitFut R A O) × World → Type 0
  Holds origin t = t.0.1.origin ≡ origin

  if-Holds :
      (origin : Option Duration) (b : Bool)
      (x y : M World (Turn R A O × AsyncRun World Fut WaitFut R A O)) (w : World)
      → Holds origin (x w)
      → Holds origin (y w)
      → Holds origin ((if b then x else y) w)
  if-Holds origin true x y w p q = p
  if-Holds origin false x y w p q = q

  after_step-Holds :
      (self : AsyncRun World Fut WaitFut R A O) (next : Step R A O) (w : World)
      → Holds self.origin (after_step self next w)
  unfolding after_step
  after_step-Holds self (Step.done result stats) w = refl
  after_step-Holds self (Step.again delay running) w =
      if-Holds self.origin (delay == 0) _ _ w refl refl

  on_polled-Holds :
      (origin : Duration) (self : AsyncRun World Fut WaitFut R A O) (polled : Poll O × Fut)
      (w : World)
      → Holds self.origin (on_polled origin self polled w)
  unfolding on_polled elapsed
  on_polled-Holds origin self (pending, fut) w = refl
  on_polled-Holds origin self (ready a, fut) w = search after_step-Holds

  on_slept-Holds :
      (self : AsyncRun World Fut WaitFut R A O) (polled : Poll (Unit {0}) × WaitFut) (w : World)
      → Holds self.origin (on_slept self polled w)
  unfolding on_slept
  on_slept-Holds self (pending, fut) w = refl
  on_slept-Holds self (ready _, fut) w = refl

  turn_in-Holds :
      (origin : Duration) (phase : Phase Fut WaitFut) (self : AsyncRun World Fut WaitFut R A O)
      (w : World)
      → Holds self.origin (turn_in origin phase self w)
  unfolding turn_in begin_attempt
  turn_in-Holds origin Phase.ready_to_start self w = refl
  turn_in-Holds origin (Phase.polling fut) self w =
      let polled = self.retry.poll_op fut w in on_polled-Holds origin self polled.0 polled.1
  turn_in-Holds origin (Phase.sleeping fut) self w =
      let polled = self.retry.clock.poll_wait fut w in on_slept-Holds self polled.0 polled.1
  turn_in-Holds origin Phase.done self w = refl

  after_turn-origin :
      (rest : AsyncRun World Fut WaitFut R A O
        → M World (Polled R A O × AsyncRun World Fut WaitFut R A O))
      → ((self : AsyncRun World Fut WaitFut R A O) (w : World)
          → (rest self w).0.1.origin ≡ self.origin)
      → (next : Turn R A O) (self : AsyncRun World Fut WaitFut R A O) (w : World)
      → (after_turn rest next self w).0.1.origin ≡ self.origin
  after_turn-origin rest more Turn.go_on self w = more self w
  after_turn-origin rest more (Turn.return polled) self w = refl
  after_turn-origin rest more Turn.panic self w = refl

  poll_loop-origin :
      (fuel : ℕ) (origin : Duration) (self : AsyncRun World Fut WaitFut R A O) (w : World)
      → (poll_loop fuel origin self w).0.1.origin ≡ self.origin
  unfolding poll_loop turn
  poll_loop-origin zero origin self w = refl
  poll_loop-origin (suc fuel) origin self w =
      let t = turn_in origin self.phase self w in
      after_turn-origin (poll_loop fuel origin) (poll_loop-origin fuel origin) t.0.0 t.0.1 t.1
      ∙ turn_in-Holds origin self.phase self w

  started :
      (fuel : ℕ) (self : AsyncRun World Fut WaitFut R A O) (w : World) (origin : Option Duration)
      → self.origin ≡ origin
      → let begun = baseline self origin w in
        (poll_loop fuel begun.0.0 begun.0.1 begun.1).0.1.origin
        ≡ some (unwrap_or origin (self.retry.clock.now w).0)
  unfolding baseline
  started fuel self w none e = poll_loop-origin fuel _ _ _
  started fuel self w (some origin) e = poll_loop-origin fuel _ _ _ ∙ e

  -- The elapsed time counts from the first poll: a poll of a future without a baseline takes the
  -- clock's reading of that moment, and no poll changes the baseline that an earlier one has
  -- taken, whatever its fuel and its outcome.
  poll-origin :
      (fuel : ℕ) (self : AsyncRun World Fut WaitFut R A O) (w : World)
      → (poll fuel self w).0.1.origin ≡ some (unwrap_or self.origin (self.retry.clock.now w).0)
  unfolding poll
  poll-origin fuel self w = started fuel self w self.origin refl
