-- ===== src/Engine/Async.antt =====
-- src/engine/async_engine.rs: the async loop as a state machine that is polled. `Fut` is the
-- operation's future, `WaitFut` the clock's.
pub mod Parity
pub mod Converse
pub mod Reaches
pub mod Fused
pub mod Panics
pub mod Eager
pub mod Wakers
pub mod Baseline
pub mod Logged
pub mod Events
pub mod Spec
pub mod Timeline
pub mod Fuel
pub mod Builder
pub mod WithStats
use tenacious.Prelude.{
  ℕ, zero, suc, ◌+◌, min, Option, none, some, Result, ok, err, ◌==◌, if◌then◌else◌,
}
use tenacious.Prelude.{M, pure, ◌>>=◌, ◌>>◌, skip, Poll, pending, ready}
use tenacious.Duration.{Duration}
use tenacious.State.{RetryState}
use tenacious.Decision.{Decide}
use tenacious.Stop.{Stop}
use tenacious.Wait.{Wait}
use tenacious.Clock.{AsyncClock}
use tenacious.Engine.Error.{RetryError}
use tenacious.Engine.Hooks.{ExecutionHooks}
use tenacious.Engine.Op.{RetryOp}
use tenacious.Engine.Step
use tenacious.Engine.Step.{Progress, Step}
use tenacious.Engine.Sync.{
  Cursor, Finished, u32_max, start, next_cursor, elapsed, before_state, progress_of,
}

-- `poll_op` is the `poll` of the operation's future, which changes it in place.
pub record AsyncRetry (World Fut WaitFut R A O : Type 0) : Type 0 where
  pub op : RetryOp World Fut
  pub poll_op : Fut → M World (Poll O × Fut)
  pub classifier : Decide World R A O
  pub stop : Stop World
  pub wait : Wait World
  pub clock : AsyncClock World WaitFut
  pub hooks : ExecutionHooks World R A O
  pub timeout : Option Duration

pub data Phase (Fut WaitFut : Type 0) : Type 0 where
  ready_to_start : Phase Fut WaitFut
  polling : Fut → Phase Fut WaitFut
  sleeping : WaitFut → Phase Fut WaitFut
  done : Phase Fut WaitFut

-- The future that `call` returns: the builder's parts, the phase, the variables of the loop
-- (`attempt`, `previous_delay` and `total_wait`, which are a `Cursor` here) and the baseline.
pub record AsyncRun (World Fut WaitFut R A O : Type 0) : Type 0 where
  pub retry : AsyncRetry World Fut WaitFut R A O
  pub phase : Phase Fut WaitFut
  pub cursor : Cursor
  pub origin : Option Duration

-- What one turn of the loop in `poll` does: go round again, return, or panic.
pub data Turn (R A O : Type 0) : Type 0 where
  go_on : Turn R A O
  return : Poll (Finished R A O) → Turn R A O
  panic : Turn R A O

-- What a `poll` gives: `ran_out` means that the fuel of its loop ran out; the code has no fuel.
pub data Polled (R A O : Type 0) : Type 0 where
  returned : Poll (Finished R A O) → Polled R A O
  panicked : Polled R A O
  ran_out : Polled R A O

abbrev pub bump : Cursor → Cursor
bump c = record c { attempt = min (c.attempt + 1) u32_max }

-- `DropStats`, which `call` wraps around the future: what a poll gives without the stats.
abbrev pub drop_stats : {R A O : Type 0} → Poll (Finished R A O) → Poll (Result R (RetryError A O))
drop_stats pending = pending
drop_stats (ready (result, stats)) = ready result

module _ {World Fut WaitFut R A O : Type 0} where
  unfoldable pub into_run : AsyncRetry World Fut WaitFut R A O → AsyncRun World Fut WaitFut R A O
  into_run self = record {
    retry = self;
    phase = Phase.ready_to_start;
    cursor = start;
    origin = none;
  }

  -- `PhaseProj::ReadyToStart`
  pub begin_attempt :
      Duration
      → AsyncRun World Fut WaitFut R A O
      → M World (Turn R A O × AsyncRun World Fut WaitFut R A O)
  unfolding elapsed
  begin_attempt origin self = do
    began ← elapsed self.retry.clock.now origin
    self.retry.hooks.before_attempt (before_state self.cursor began)
    op_future ← self.retry.op (before_state self.cursor began)
    pure (Turn.go_on, record self { phase = Phase.polling op_future })

  -- The match on the step. The counter moves on when the sleep, if any, is over.
  pub after_step :
      AsyncRun World Fut WaitFut R A O
      → Step R A O
      → M World (Turn R A O × AsyncRun World Fut WaitFut R A O)
  after_step self (Step.done result stats) =
      pure (Turn.return (ready (result, stats)), record self { phase = Phase.done })
  after_step self (Step.again delay running) =
      let c = record self.cursor { total_wait = running; previous_delay = some delay } in
      let at_once : M World (Turn R A O × AsyncRun World Fut WaitFut R A O) =
        pure (Turn.go_on, record self { cursor = bump c; phase = Phase.ready_to_start }) in
      let sleep : M World (Turn R A O × AsyncRun World Fut WaitFut R A O) =
        self.retry.clock.wait_async delay >>= λ sleep_future.
        pure (Turn.go_on, record self { cursor = c; phase = Phase.sleeping sleep_future }) in
      if delay == 0 then at_once else sleep

  -- `PhaseProj::Polling`, once the operation's future has been polled.
  pub on_polled :
      Duration
      → AsyncRun World Fut WaitFut R A O
      → Poll O × Fut
      → M World (Turn R A O × AsyncRun World Fut WaitFut R A O)
  unfolding after_step elapsed
  on_polled origin self (pending, op_future) =
      pure (Turn.return pending, record self { phase = Phase.polling op_future })
  on_polled origin self (ready outcome, op_future) = do
    post_elapsed ← elapsed self.retry.clock.now origin
    next ←
        Step.step (progress_of self.cursor post_elapsed) outcome self.retry.classifier
          self.retry.stop self.retry.wait self.retry.timeout self.retry.hooks
    after_step self next

  -- `PhaseProj::Sleeping`, once the clock's future has been polled.
  pub on_slept :
      AsyncRun World Fut WaitFut R A O
      → Poll (Unit {0}) × WaitFut
      → M World (Turn R A O × AsyncRun World Fut WaitFut R A O)
  on_slept self (pending, sleep_future) =
      pure (Turn.return pending, record self { phase = Phase.sleeping sleep_future })
  on_slept self (ready _, sleep_future) =
      pure (Turn.go_on, record self { cursor = bump self.cursor; phase = Phase.ready_to_start })

  -- One turn of the loop in `poll`: the match on the phase.
  pub turn_in :
      Duration
      → Phase Fut WaitFut
      → AsyncRun World Fut WaitFut R A O
      → M World (Turn R A O × AsyncRun World Fut WaitFut R A O)
  unfolding begin_attempt on_polled on_slept
  turn_in origin Phase.ready_to_start self = begin_attempt origin self
  turn_in origin (Phase.polling op_future) self = do
    polled ← self.retry.poll_op op_future
    on_polled origin self polled
  turn_in origin (Phase.sleeping sleep_future) self = do
    polled ← self.retry.clock.poll_wait sleep_future
    on_slept self polled
  turn_in origin Phase.done self = pure (Turn.panic, self)

  unfoldable pub turn :
      Duration
      → AsyncRun World Fut WaitFut R A O
      → M World (Turn R A O × AsyncRun World Fut WaitFut R A O)
  unfolding turn_in
  turn origin self = turn_in origin self.phase self

  abbrev pub after_turn :
      (AsyncRun World Fut WaitFut R A O → M World (Polled R A O × AsyncRun World Fut WaitFut R A O))
      → Turn R A O
      → AsyncRun World Fut WaitFut R A O
      → M World (Polled R A O × AsyncRun World Fut WaitFut R A O)
  after_turn rest Turn.go_on self = rest self
  after_turn rest (Turn.return polled) self = pure (Polled.returned polled, self)
  after_turn rest Turn.panic self = pure (Polled.panicked, self)

  abbrev pub after_poll :
      (AsyncRun World Fut WaitFut R A O → M World (Option (Finished R A O)))
      → Polled R A O
      → AsyncRun World Fut WaitFut R A O
      → M World (Option (Finished R A O))
  after_poll rest (Polled.returned pending) self = rest self
  after_poll rest (Polled.returned (ready finished)) self = pure (some finished)
  after_poll rest Polled.panicked self = pure none
  after_poll rest Polled.ran_out self = pure none

  -- The loop in `poll`, on fuel.
  unfoldable pub poll_loop :
      ℕ
      → Duration
      → AsyncRun World Fut WaitFut R A O
      → M World (Polled R A O × AsyncRun World Fut WaitFut R A O)
  poll_loop zero origin self = pure (Polled.ran_out, self)
  poll_loop (suc fuel) origin self = do
    (next, self') ← turn origin self
    after_turn (poll_loop fuel origin) next self'

  -- The baseline is taken at the first poll.
  pub baseline :
      AsyncRun World Fut WaitFut R A O
      → Option Duration
      → M World (Duration × AsyncRun World Fut WaitFut R A O)
  baseline self (some origin) = pure (origin, self)
  baseline self none = do
    origin ← self.retry.clock.now
    pure (origin, record self { origin = some origin })

  unfoldable pub poll :
      ℕ
      → AsyncRun World Fut WaitFut R A O
      → M World (Polled R A O × AsyncRun World Fut WaitFut R A O)
  unfolding baseline
  poll fuel self = do (origin, self') ← baseline self self.origin; poll_loop fuel origin self'

  -- An executor that polls until the future is ready, `polls` times at most, with `fuel` for the
  -- loop of each poll. `none` means that it gave no result.
  unfoldable pub block_on :
      (polls fuel : ℕ) → AsyncRun World Fut WaitFut R A O → M World (Option (Finished R A O))
  block_on zero fuel self = pure none
  block_on (suc polls) fuel self = do
    (polled, self') ← poll fuel self
    after_poll (block_on polls fuel) polled self'
