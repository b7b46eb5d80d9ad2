-- ===== src/Engine/Step.antt =====
-- src/engine/step.rs: what follows a completed attempt, in both engines.
pub mod Laws
pub mod Log
use tenacious.Prelude.{ℕ, ◌-◌, min, Bool, false, ◌||◌, Option, none, some, Result, ok, err, leb}
use tenacious.Prelude.{M, pure, ◌>>=◌, ◌>>◌, if◌then◌else◌}
use tenacious.Duration.{Duration, saturating_add, saturating_sub}
use tenacious.State.{RetryState, for_attempt, with_elapsed, with_previous_delay}
use tenacious.Decision.{Verdict, Decide}
use tenacious.Stop.{Stop}
use tenacious.Wait.{Wait}
use tenacious.Engine.State
use tenacious.Engine.State.{StopReason, Exit}
use tenacious.Engine.Stats.{RetryStats}
use tenacious.Engine.Error.{RetryError}
use tenacious.Engine.Hooks.{ExecutionHooks}

pub record Progress : Type 0 where
  pub attempt : ℕ
  pub elapsed : Duration
  pub previous_delay : Option Duration
  pub total_wait : Duration

-- `Continue` holds the delay and the new running total.
pub data Step (R A O : Type 0) : Type 0 where
  done : Result R (RetryError A O) → RetryStats → Step R A O
  again : Duration → Duration → Step R A O

-- The state that the stop and wait strategies are asked with.
unfoldable pub state_of : Progress → RetryState
unfolding for_attempt with_elapsed with_previous_delay
state_of p = with_previous_delay p.previous_delay (with_elapsed p.elapsed (for_attempt p.attempt))

unfoldable pub stats_for : Progress → StopReason → RetryStats
stats_for p reason = record {
  attempts = p.attempt;
  total_elapsed = p.elapsed;
  total_wait = p.total_wait;
  stop_reason = reason;
}

-- `timeout.is_some_and(|t| post_elapsed >= t)`
unfoldable pub timeout_exceeded : Option Duration → Duration → Bool
timeout_exceeded none post_elapsed = false
timeout_exceeded (some t) post_elapsed = leb t post_elapsed

-- The delay, cut to the rest of the timeout's budget.
clamp : Option Duration → Duration → Duration → Duration
clamp none post_elapsed next_delay = next_delay
clamp (some t) post_elapsed next_delay = min next_delay (saturating_sub t post_elapsed)

module _ {World R A O : Type 0} where
  -- The arms of the match on the verdict.
  unfoldable pub settle :
      Progress
      → Stop World
      → Wait World
      → Option Duration
      → ExecutionHooks World R A O
      → Verdict R A O
      → M World (Step R A O)
  unfolding state_of stats_for timeout_exceeded clamp
  settle p stop wait timeout hooks (Verdict.accept value) = do
    hooks.on_exit (Exit.returned p.attempt p.elapsed value)
    pure (Step.done (ok value) (stats_for p StopReason.returned))
  settle p stop wait timeout hooks (Verdict.abort last) = do
    hooks.on_exit (Exit.aborted p.attempt p.elapsed last)
    pure (Step.done (err (RetryError.aborted last)) (stats_for p StopReason.aborted))
  settle p stop wait timeout hooks (Verdict.retry last) = do
    let late = timeout_exceeded timeout p.elapsed
    stopped ← stop (state_of p)
    let give_up : M World (Step R A O) = do
      hooks.on_exit (Exit.exhausted p.attempt p.elapsed last)
      pure (Step.done (err (RetryError.exhausted last)) (stats_for p StopReason.exhausted))
    let schedule : M World (Step R A O) = do
      next_delay ← wait (state_of p)
      let delay = clamp timeout p.elapsed next_delay
      pure (Step.again delay (saturating_add p.total_wait delay))
    if stopped || late then give_up else schedule

  unfoldable pub step :
      Progress
      → O
      → Decide World R A O
      → Stop World
      → Wait World
      → Option Duration
      → ExecutionHooks World R A O
      → M World (Step R A O)
  unfolding settle State.new
  step p outcome classifier stop wait timeout hooks = do
    hooks.after_attempt (State.new p.attempt p.elapsed outcome)
    verdict ← classifier outcome
    settle p stop wait timeout hooks verdict
