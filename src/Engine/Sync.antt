-- ===== src/Engine/Sync.antt =====
-- src/engine/mod.rs: the sync loop. `Builder` holds the setters.
pub mod Builder
pub mod WithStats
pub mod Rules
pub mod Outcome
pub mod Frame
pub mod Waits
pub mod Events
pub mod Defaults
pub mod Deadline
pub mod Elapsed
pub mod Expiry
pub mod Endless
pub mod Failure
pub mod Registration
pub mod Spec
pub mod Shapes
pub mod Rounds
pub mod Calls
pub mod Timeline
pub mod Failing
use tenacious.Prelude.{ℕ, zero, suc, ◌+◌, min, Option, none, some, Result, ◌==◌, if◌then◌else◌}
use tenacious.Prelude.{M, pure, ◌>>=◌, ◌>>◌, skip}
use tenacious.Duration.{Duration, saturating_sub}
use tenacious.State.{RetryState, for_attempt, with_elapsed, with_previous_delay}
use tenacious.Decision.{Decide}
use tenacious.Stop.{Stop}
use tenacious.Wait.{Wait}
use tenacious.Clock.{SyncClock}
use tenacious.Engine.Stats.{RetryStats}
use tenacious.Engine.Error.{RetryError}
use tenacious.Engine.Hooks.{ExecutionHooks}
use tenacious.Engine.Op.{RetryOp}
use tenacious.Engine.Step
use tenacious.Engine.Step.{Progress, Step}

pub record Retry (World R A O : Type 0) : Type 0 where
  pub op : RetryOp World O
  pub classifier : Decide World R A O
  pub stop : Stop World
  pub wait : Wait World
  pub clock : SyncClock World
  pub hooks : ExecutionHooks World R A O
  pub timeout : Option Duration

-- The variables of the loop. `attempt` is a `u32`.
pub record Cursor : Type 0 where
  pub attempt : ℕ
  pub previous_delay : Option Duration
  pub total_wait : Duration

abbrev pub start : Cursor
start = record { attempt = 1; previous_delay = none; total_wait = 0 }

abbrev pub u32_max : ℕ
u32_max = 4_294_967_295

-- `attempt.saturating_add(1)`, with the applied delay and the running total.
abbrev pub next_cursor : Cursor → Duration → Duration → Cursor
next_cursor c delay running = record {
  attempt = min (c.attempt + 1) u32_max;
  previous_delay = some delay;
  total_wait = running;
}

-- What the loop gives: the caller's result and the stats.
abbrev pub Finished : Type 0 → Type 0 → Type 0 → Type 0
Finished R A O = Result R (RetryError A O) × RetryStats

-- The time since the loop began.
unfoldable pub elapsed : {World : Type 0} → M World Duration → Duration → M World Duration
elapsed now origin = do reading ← now; pure (saturating_sub reading origin)

abbrev pub before_state : Cursor → Duration → RetryState
before_state c began =
    with_previous_delay c.previous_delay (with_elapsed began (for_attempt c.attempt))

abbrev pub progress_of : Cursor → Duration → Progress
progress_of c post_elapsed = record {
  attempt = c.attempt;
  elapsed = post_elapsed;
  previous_delay = c.previous_delay;
  total_wait = c.total_wait;
}

abbrev pub result_of :
    {R A O : Type 0} → Option (Finished R A O) → Option (Result R (RetryError A O))
result_of none = none
result_of (some finished) = some finished.0

module _ {World R A O : Type 0} where
  -- The body of the loop up to the step.
  unfoldable pub round : Retry World R A O → Duration → Cursor → M World (Step R A O)
  unfolding elapsed
  round self origin c = do
    began ← elapsed self.clock.now origin
    self.hooks.before_attempt (before_state c began)
    outcome ← self.op (before_state c began)
    post_elapsed ← elapsed self.clock.now origin
    Step.step (progress_of c post_elapsed) outcome self.classifier self.stop self.wait self.timeout
        self.hooks

  -- The match on the step: return, or sleep and go round again.
  unfoldable pub resume :
      (Cursor → M World (Option (Finished R A O)))
      → SyncClock World
      → Cursor
      → Step R A O
      → M World (Option (Finished R A O))
  resume go_on clock c (Step.done result stats) = pure (some (result, stats))
  resume go_on clock c (Step.again delay running) = do
    if delay == 0 then skip else clock.wait delay
    go_on (next_cursor c delay running)

  -- The loop, on fuel: `none` means that the fuel ran out.
  unfoldable pub loop :
      ℕ → Retry World R A O → Duration → Cursor → M World (Option (Finished R A O))
  loop zero self origin c = pure none
  loop (suc fuel) self origin c = do
    next ← round self origin c
    resume (loop fuel self origin) self.clock c next

  unfoldable pub run : ℕ → Retry World R A O → M World (Option (Finished R A O))
  run fuel self = do origin ← self.clock.now; loop fuel self origin start

  -- The caller's `call`: the result without the stats.
  unfoldable pub call : ℕ → Retry World R A O → M World (Option (Result R (RetryError A O)))
  call fuel self = do finished ← run fuel self; pure (result_of finished)
