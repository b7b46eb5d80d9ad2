-- ===== src/Engine/Async/Panics.antt =====
-- When a poll of the future of src/engine/async_engine.rs panics.
use mathlib.Core.Path.{subst}
use tenacious.Prelude.{
  ◌↔◌, ℕ, zero, suc, ◌==◌, Bool-cases, inl, inr, ◌≡◌, refl, Option, some, none, M, Poll, pending,
  ready,
}
use tenacious.Duration.{Duration}
use tenacious.Engine.Step.{Step, step}
use tenacious.Engine.Sync.{elapsed, progress_of}
use tenacious.Engine.Async.{
  AsyncRun, Phase, Turn, Polled, begin_attempt, after_step, on_polled, on_slept, turn_in, turn,
  after_turn, poll_loop, baseline, poll,
}
use tenacious.Engine.Async.Fused.{panics}

abbrev Live : {Fut WaitFut : Type 0} → Phase Fut WaitFut → Type 0
Live Phase.ready_to_start = Unit
Live (Phase.polling _) = Unit
Live (Phase.sleeping _) = Unit
Live Phase.done = ⊥

-- A turn goes on in a live phase, and panics only in the phase `Done`.
abbrev Sound : {Fut WaitFut R A O : Type 0} → Turn R A O → (old new : Phase Fut WaitFut) → Type 0
Sound Turn.go_on old new = Live new
Sound (Turn.return polled) old new = Unit
Sound Turn.panic old new = old ≡ Phase.done

-- A poll from this phase panicked only if the future was done.
abbrev Calm : {Fut WaitFut R A O : Type 0} → Phase Fut WaitFut → Polled R A O → Type 0
Calm old (Polled.returned polled) = Unit
Calm old Polled.panicked = old ≡ Phase.done
Calm old Polled.ran_out = Unit

Live-Calm :
    {Fut WaitFut R A O : Type 0} (old new : Phase Fut WaitFut) (polled : Polled R A O)
    → Live new
    → Calm new polled
    → Calm old polled
Live-Calm old new (Polled.returned polled) live calm = tt
Live-Calm old new Polled.panicked live gone = absurd (subst Live gone live)
Live-Calm old new Polled.ran_out live calm = tt

module _ {World Fut WaitFut R A O : Type 0} where
  abbrev TurnSound :
      Phase Fut WaitFut → (Turn R A O × AsyncRun World Fut WaitFut R A O) × World → Type 0
  TurnSound old t = Sound t.0.0 old t.0.1.phase

  after_step-Sound :
      (old : Phase Fut WaitFut) (self : AsyncRun World Fut WaitFut R A O) (next : Step R A O)
      (w : World)
      → TurnSound old (after_step self next w)
  unfolding after_step
  after_step-Sound old self (Step.done result stats) w = tt
  after_step-Sound old self (Step.again delay running) w = elim (Bool-cases (delay == 0)) [
    | inl z ↦ rw z tt
    | inr z ↦ rw z tt
  ]

  on_polled-Sound :
      (old : Phase Fut WaitFut) (origin : Duration) (self : AsyncRun World Fut WaitFut R A O)
      (polled : Poll O × Fut) (w : World)
      → TurnSound old (on_polled origin self polled w)
  unfolding on_polled elapsed
  on_polled-Sound old origin self (pending, fut) w = tt
  on_polled-Sound old origin self (ready a, fut) w =
      let read = elapsed self.retry.clock.now origin w in
      let next =
        step (progress_of self.cursor read.0) a self.retry.classifier self.retry.stop
          self.retry.wait self.retry.timeout self.retry.hooks read.1 in
      after_step-Sound old self next.0 next.1

  on_slept-Sound :
      (old : Phase Fut WaitFut) (self : AsyncRun World Fut WaitFut R A O)
      (polled : Poll (Unit {0}) × WaitFut) (w : World)
      → TurnSound old (on_slept self polled w)
  unfolding on_slept
  on_slept-Sound old self (pending, fut) w = tt
  on_slept-Sound old self (ready _, fut) w = tt

  turn_in-Sound :
      (origin : Duration) (phase : Phase Fut WaitFut) (self : AsyncRun World Fut WaitFut R A O)
      (w : World)
      → TurnSound phase (turn_in origin phase self w)
  unfolding turn_in begin_attempt
  turn_in-Sound origin Phase.ready_to_start self w = tt
  turn_in-Sound origin (Phase.polling fut) self w =
      let polled = self.retry.poll_op fut w in
      on_polled-Sound (Phase.polling fut) origin self polled.0 polled.1
  turn_in-Sound origin (Phase.sleeping fut) self w =
      let polled = self.retry.clock.poll_wait fut w in
      on_slept-Sound (Phase.sleeping fut) self polled.0 polled.1
  turn_in-Sound origin Phase.done self w = refl

  after_turn-Calm :
      (old : Phase Fut WaitFut)
      (rest : AsyncRun World Fut WaitFut R A O
        → M World (Polled R A O × AsyncRun World Fut WaitFut R A O))
      → ((self : AsyncRun World Fut WaitFut R A O) (w : World) → Calm self.phase (rest self w).0.0)
      → (next : Turn R A O) (self : AsyncRun World Fut WaitFut R A O) (w : World)
      → Sound next old self.phase
      → Calm old (after_turn rest next self w).0.0
  after_turn-Calm old rest more Turn.go_on self w live =
      Live-Calm old self.phase _ live (more self w)
  after_turn-Calm old rest more (Turn.return polled) self w sound = tt
  after_turn-Calm old rest more Turn.panic self w gone = gone

  poll_loop-Calm :
      (fuel : ℕ) (origin : Duration) (self : AsyncRun World Fut WaitFut R A O) (w : World)
      → Calm self.phase (poll_loop fuel origin self w).0.0
  unfolding poll_loop turn
  poll_loop-Calm zero origin self w = tt
  poll_loop-Calm (suc fuel) origin self w =
      after_turn-Calm self.phase (poll_loop fuel origin) (poll_loop-Calm fuel origin) _ _ _
        (turn_in-Sound origin self.phase self w)

  poll-Calm :
      (fuel : ℕ) (self : AsyncRun World Fut WaitFut R A O) (w : World)
      → Calm self.phase (poll fuel self w).0.0
  unfolding poll baseline
  poll-Calm fuel self w = started self.origin
    where
      started :
          (at : Option Duration)
          → let t = baseline self at w in Calm self.phase (poll_loop fuel t.0.0 t.0.1 t.1).0.0
      started (some origin) = poll_loop-Calm fuel origin self w
      started none = poll_loop-Calm fuel _ _ _

  -- A poll with fuel for one turn at least panics exactly when the future's phase is `Done`, in every
  -- world: whatever the operation's and the clock's futures answer, no other future panics.
  pub poll-panicked :
      (fuel : ℕ) (self : AsyncRun World Fut WaitFut R A O) (w : World)
      → ((poll (suc fuel) self w).0.0 ≡ Polled.panicked) ↔ (self.phase ≡ Phase.done)
  unfolding poll
  poll-panicked fuel self w = (
    (λ h. subst (Calm self.phase) h (poll-Calm (suc fuel) self w)),
    (λ gone. panics fuel self w self.origin gone),
  )
