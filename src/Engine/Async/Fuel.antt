-- ===== src/Engine/Async/Fuel.antt =====
-- That a poll of the future of src/engine/async_engine.rs ends, whatever its futures do.
use mathlib.Core.Path.{subst}
use tenacious.Prelude.{
  ℕ, zero, suc, ◌+◌, ◌-◌, ◌*◌, ◌≤◌, ◌<◌, ◌==◌, Bool-cases, inl, inr, ◌≡◌, refl, sym, arith, Option,
  some, none, Poll, pending, ready, M,
}
use tenacious.Duration.{Duration}
use tenacious.Stop.{StopsBy}
use tenacious.Engine.Step.{Step, step}
use tenacious.Engine.Step.Laws.{step_again-lt}
use tenacious.Engine.Sync.{Cursor, u32_max, start, elapsed, progress_of}
use tenacious.Engine.Async.{
  AsyncRetry, AsyncRun, Phase, Turn, Polled, bump, into_run, begin_attempt, after_step, on_polled,
  on_slept, turn_in, turn, after_turn, poll_loop, baseline, poll,
}
use tenacious.Engine.Async.Logged.{polled_times}

-- The poll ended by itself.
abbrev pub Ends : {R A O : Type 0} → Polled R A O → Type 0
Ends (Polled.returned polled) = Unit
Ends Polled.panicked = Unit
Ends Polled.ran_out = ⊥

module _ {World Fut WaitFut R A O : Type 0} (self : AsyncRetry World Fut WaitFut R A O) (n : ℕ)
    (small : n ≤ u32_max) (by : StopsBy n self.stop) where
  abbrev at_phase : Phase Fut WaitFut → Cursor → Option Duration → AsyncRun World Fut WaitFut R A O
  at_phase phase c origin = record { retry = self; phase = phase; cursor = c; origin = origin }

  -- How far the counter can be in a phase.
  abbrev Within : Phase Fut WaitFut → Cursor → Type 0
  Within Phase.ready_to_start c = c.attempt ≤ n
  Within (Phase.polling _) c = c.attempt ≤ n
  Within (Phase.sleeping _) c = c.attempt < n
  Within Phase.done c = Unit

  -- The turns that are left at most before the loop returns.
  abbrev left : Phase Fut WaitFut → Cursor → ℕ
  left Phase.ready_to_start c = 3 * (n - c.attempt) + 3
  left (Phase.polling _) c = 3 * (n - c.attempt) + 2
  left (Phase.sleeping _) c = 3 * (n - c.attempt) + 1
  left Phase.done c = 0

  -- A future of these parts, with fewer turns left than a bound.
  abbrev Fits : ℕ → AsyncRun World Fut WaitFut R A O → Type 0
  Fits bound run =
      (phase : Phase Fut WaitFut) × (c : Cursor) × (origin : Option Duration) × (run
        ≡ at_phase phase c origin)
      × Within phase c
      × (left phase c < bound)

  -- A turn that goes on leaves fewer turns, and any other one no more than a fresh attempt has.
  abbrev bound_after : Turn R A O → ℕ → ℕ
  bound_after Turn.go_on bound = bound
  bound_after (Turn.return polled) bound = 3 * n + 4
  bound_after Turn.panic bound = 3 * n + 4

  abbrev TurnFits : ℕ → (Turn R A O × AsyncRun World Fut WaitFut R A O) × World → Type 0
  TurnFits bound t = Fits (bound_after t.0.0 bound) t.0.1

  after_step-Fits :
      (fut : Fut) (c : Cursor) (origin : Option Duration) (next : Step R A O) (w : World)
      → ((delay running : Duration) → next ≡ Step.again delay running → c.attempt < n)
      → TurnFits
          (3 * (n - c.attempt) + 2)
          (after_step (at_phase (Phase.polling fut) c origin) next w)
  unfolding after_step
  after_step-Fits fut c origin (Step.done result stats) w below =
      (Phase.done, c, origin, refl, tt, omega arith)
  after_step-Fits fut c origin (Step.again delay running) w below =
      let moved = record c { total_wait = running; previous_delay = some delay } in
      let lt = below delay running refl in
      elim (Bool-cases (delay == 0)) [
        | inl z ↦ rw z (Phase.ready_to_start, bump moved, origin, refl, omega arith, omega arith)
        | inr z ↦
            rw z (
              Phase.sleeping (self.clock.wait_async delay w).0,
              moved,
              origin,
              refl,
              lt,
              omega arith,
            )
      ]

  on_polled-Fits :
      (since : Duration) (fut : Fut) (c : Cursor) (origin : Option Duration) (polled : Poll O × Fut)
      (w : World)
      → c.attempt ≤ n
      → TurnFits
          (3 * (n - c.attempt) + 2)
          (on_polled since (at_phase (Phase.polling fut) c origin) polled w)
  unfolding on_polled
  on_polled-Fits since fut c origin (pending, fut') w le =
      (Phase.polling fut', c, origin, refl, le, omega arith)
  on_polled-Fits since fut c origin (ready a, fut') w le =
      let read = elapsed self.clock.now since w in
      let next =
        step (progress_of c read.0) a self.classifier self.stop self.wait self.timeout self.hooks
          read.1 in
      after_step-Fits fut c origin next.0 next.1
        (λ delay running h. step_again-lt n _ _ _ _ _ _ _ _ by h)

  turn_in-Fits :
      (since : Duration) (phase : Phase Fut WaitFut) (c : Cursor) (origin : Option Duration)
      (w : World)
      → Within phase c
      → TurnFits (left phase c) (turn_in since phase (at_phase phase c origin) w)
  unfolding turn_in begin_attempt on_slept
  turn_in-Fits since Phase.ready_to_start c origin w le = (_, c, origin, refl, le, omega arith)
  turn_in-Fits since (Phase.polling fut) c origin w le =
      let polled = self.poll_op fut w in on_polled-Fits since fut c origin polled.0 polled.1 le
  turn_in-Fits since (Phase.sleeping fut) c origin w lt =
      slept (self.clock.poll_wait fut w).0 (self.clock.poll_wait fut w).1
    where
      slept :
          (polled : Poll (Unit {0}) × WaitFut) (v : World)
          → TurnFits
              (3 * (n - c.attempt) + 1)
              (on_slept (at_phase (Phase.sleeping fut) c origin) polled v)
      slept (pending, fut') v = (Phase.sleeping fut', c, origin, refl, lt, omega arith)
      slept (ready _, fut') v =
          (Phase.ready_to_start, bump c, origin, refl, omega arith, omega arith)
  turn_in-Fits since Phase.done c origin w gone = (Phase.done, c, origin, refl, tt, omega arith)

  widen : (a b : ℕ) (run : AsyncRun World Fut WaitFut R A O) → a ≤ b → Fits a run → Fits b run
  widen a b run le (phase, c, origin, e, within, lt) = (phase, c, origin, e, within, omega arith)

  -- What a poll gives: it ended, and the future is one that the next poll can start from.
  abbrev PollFits : (Polled R A O × AsyncRun World Fut WaitFut R A O) × World → Type 0
  PollFits t = Ends t.0.0 × Fits (3 * n + 4) t.0.1

  after_turn-Fits :
      (bound : ℕ)
      (rest : AsyncRun World Fut WaitFut R A O
        → M World (Polled R A O × AsyncRun World Fut WaitFut R A O))
      → ((run : AsyncRun World Fut WaitFut R A O) (w : World)
          → Fits bound run
          → PollFits (rest run w))
      → (next : Turn R A O) (run : AsyncRun World Fut WaitFut R A O) (w : World)
      → Fits (bound_after next bound) run
      → PollFits (after_turn rest next run w)
  after_turn-Fits bound rest more Turn.go_on run w fits = more run w fits
  after_turn-Fits bound rest more (Turn.return polled) run w fits = (tt, fits)
  after_turn-Fits bound rest more Turn.panic run w fits = (tt, fits)

  poll_loop-Fits :
      (fuel : ℕ) (since : Duration) (run : AsyncRun World Fut WaitFut R A O) (w : World)
      → Fits fuel run
      → PollFits (poll_loop fuel since run w)
  unfolding poll_loop turn
  poll_loop-Fits zero since run w (phase, c, origin, e, within, lt) = absurd (omega arith)
  poll_loop-Fits (suc fuel) since run w (phase, c, origin, e, within, lt) =
      let t = turn since run w in
      let fits =
        subst (λ r. TurnFits (left phase c) (turn since r w)) (sym e)
          (turn_in-Fits since phase c origin w within) in
      after_turn-Fits (left phase c) (poll_loop fuel since)
        (λ run' v fits'.
          poll_loop-Fits fuel since run' v (widen (left phase c) fuel run' (omega arith) fits'))
        t.0.0 t.0.1 t.1 fits

  module _ (fuel : ℕ) (enough : 3 * n + 4 ≤ fuel) where
    poll-Fits :
        (run : AsyncRun World Fut WaitFut R A O) (w : World)
        → Fits (3 * n + 4) run
        → PollFits (poll fuel run w)
    unfolding poll baseline
    poll-Fits run w (phase, c, origin, e, within, lt) =
        subst (λ r. PollFits (poll fuel r w)) (sym e) (from origin)
      where
        from : (at : Option Duration) → PollFits (poll fuel (at_phase phase c at) w)
        from (some since) =
            poll_loop-Fits fuel since _ w (phase, c, some since, refl, within, omega arith)
        from none =
            let (since, v) = self.clock.now w in
            poll_loop-Fits fuel since _ v (phase, c, some since, refl, within, omega arith)

    polled_times-Fits :
        (polls : ℕ) (run : AsyncRun World Fut WaitFut R A O) (w : World)
        → Fits (3 * n + 4) run
        → Fits (3 * n + 4) (polled_times polls fuel run w).0
    polled_times-Fits zero run w fits = fits
    polled_times-Fits (suc polls) run w fits = polled_times-Fits polls _ _ (poll-Fits run w fits).1

    -- Every poll ends. If the stop strategy stops at the `n`th attempt at the latest, with `n` a
    -- `u32` that is not 0, then fuel `3 * n + 4` is enough for each poll of a fresh future, however
    -- many polls came before it, in every world and whatever the operation's and the clock's futures
    -- answer: the loop of that poll returns or panics, and does not run out of fuel.
    pub poll-Ends :
        (polls : ℕ) (w : World)
        → 1 ≤ n
        → let t = polled_times polls fuel (into_run self) w in Ends (poll fuel t.0 t.1).0.0
    unfolding into_run
    poll-Ends polls w pos =
        let t = polled_times polls fuel (into_run self) w in
        let fresh : Fits (3 * n + 4) (into_run self) =
          (Phase.ready_to_start, start, none, refl, pos, omega arith) in
        (poll-Fits t.0 t.1 (polled_times-Fits polls (into_run self) w fresh)).0
