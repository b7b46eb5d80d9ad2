-- ===== src/Engine/Step/Laws.antt =====
-- The step of src/engine/step.rs, branch by branch.
use tenacious.Prelude.{
  ◌-◌, min, ℕ, ◌+◌, ◌≤◌, ◌<◌, Option, none, some, Result, ok, err, ◌≡◌, arith, pure, ◌>>=◌,
}
use mathlib.Core.Path.{subst}
use tenacious.Duration.{Duration, saturating_add}
use tenacious.State.{RetryState}
use tenacious.Decision.{Verdict, Decide}
use tenacious.Stop
use tenacious.Stop.{Stop, StopsBy}
use tenacious.Wait.{Wait}
use tenacious.Engine.State
use tenacious.Engine.State.{AttemptState, StopReason, Exit}
use tenacious.Engine.Stats.{RetryStats}
use tenacious.Engine.Error.{RetryError}
use tenacious.Engine.Hooks.{ExecutionHooks}
use tenacious.Engine.Step.{Progress, Step, step, stats_for, state_of}

-- The reason that a result shows by itself.
abbrev pub reason_of : {R A O : Type 0} → Result R (RetryError A O) → StopReason
reason_of (ok _) = StopReason.returned
reason_of (err (RetryError.aborted _)) = StopReason.aborted
reason_of (err (RetryError.exhausted _)) = StopReason.exhausted

-- The verdict that gives a result.
abbrev pub verdict_of : {R A O : Type 0} → Result R (RetryError A O) → Verdict R A O
verdict_of (ok value) = Verdict.accept value
verdict_of (err (RetryError.aborted last)) = Verdict.abort last
verdict_of (err (RetryError.exhausted last)) = Verdict.retry last

-- A delay ends within the budget of the timeout, and some of the budget is left.
abbrev pub WithinBudget : Option Duration → Duration → Duration → Type 0
WithinBudget none elapsed delay = Unit
WithinBudget (some t) elapsed delay = (elapsed < t) × (elapsed + delay ≤ t)

-- The wait strategy `wait`, cut to what is left of a budget.
abbrev pub wait_within : {World : Type 0} → Duration → Wait World → Wait World
wait_within t wait state = do delay ← wait state; pure (min delay (t - state.elapsed))

module _ {World R A O : Type 0} where
  module _ (p : Progress) (outcome : O) (classifier : Decide World R A O) (stop : Stop World)
      (wait : Wait World) (timeout : Option Duration) (hooks : ExecutionHooks World R A O)
      (w : World) where
    pub step-done :
        {result : Result R (RetryError A O)} {stats : RetryStats}
        → (step p outcome classifier stop wait timeout hooks w).0 ≡ Step.done result stats
        → stats ≡ stats_for p (reason_of result)
    unfolding step
    step-done h = ground arith

    pub step-again :
        {delay running : Duration}
        → (step p outcome classifier stop wait timeout hooks w).0 ≡ Step.again delay running
        → (running ≡ saturating_add p.total_wait delay) × WithinBudget timeout p.elapsed delay
    unfolding step
    step-again h = ground arith

    pub step-verdict :
        {result : Result R (RetryError A O)} {stats : RetryStats}
        → (step p outcome classifier stop wait timeout hooks w).0 ≡ Step.done result stats
        → (w' : World) × ((classifier outcome w').0 ≡ verdict_of result)
    unfolding step
    step-verdict h =
        ((hooks.after_attempt (State.new p.attempt p.elapsed outcome) w).1, ground arith)

    -- Where the step ends the loop, the wait strategy was not asked: any other strategy gives the
    -- same result and stats, and leaves the same world.
    step-wait_unused :
        {result : Result R (RetryError A O)} {stats : RetryStats} (other : Wait World)
        → (step p outcome classifier stop wait timeout hooks w).0 ≡ Step.done result stats
        → step p outcome classifier stop other timeout hooks w
          ≡ step p outcome classifier stop wait timeout hooks w
    unfolding step
    step-wait_unused other h = ground arith

  -- A timeout `t` is a stop strategy and a cut of the waits: for every outcome and all other parts,
  -- the step with the timeout gives the same, and leaves the same world, as the step without a
  -- timeout whose stop strategy is `stop | stop::elapsed(t)` and whose wait strategy asks `wait` and
  -- cuts the delay to what is left of `t` at the elapsed time that it is asked with.
  pub step-timeout :
      (p : Progress) (outcome : O) (classifier : Decide World R A O) (stop : Stop World)
      (wait : Wait World) (t : Duration) (hooks : ExecutionHooks World R A O) (w : World)
      → step p outcome classifier stop wait (some t) hooks w
        ≡ step p outcome classifier
            (Stop.any stop (Stop.after_elapsed (Stop.elapsed t)))
            (wait_within t wait)
            none
            hooks
            w
  unfolding step Stop.any Stop.after_elapsed Stop.elapsed
  step-timeout p outcome classifier stop wait t hooks w = ground arith

pub step_again-lt :
    {World R A O : Type 0} (n : ℕ) (p : Progress) (outcome : O) (classifier : Decide World R A O)
    (stop : Stop World) (wait : Wait World) (timeout : Option Duration)
    (hooks : ExecutionHooks World R A O) (w : World)
    → StopsBy n stop
    → {delay running : Duration}
    → (step p outcome classifier stop wait timeout hooks w).0 ≡ Step.again delay running
    → p.attempt < n
unfolding step
step_again-lt n p outcome classifier stop wait timeout hooks w by h = ground (
  arith,
  by (state_of p)
      (classifier outcome (hooks.after_attempt (State.new p.attempt p.elapsed outcome) w).1).1,
)

-- Under a timeout the delay is what the wait strategy asks for at least, or the rest of the budget.
pub step_again-ge :
    {World R A O : Type 0} (p : Progress) (outcome : O) (classifier : Decide World R A O)
    (stop : Stop World) (wait : Wait World) (timeout : Option Duration)
    (hooks : ExecutionHooks World R A O) (w : World) (t floor : Duration)
    → timeout ≡ some t
    → ((state : RetryState) (v : World) → floor ≤ (wait state v).0)
    → {delay running : Duration}
    → (step p outcome classifier stop wait timeout hooks w).0 ≡ Step.again delay running
    → min floor (t - p.elapsed) ≤ delay
unfolding step
step_again-ge p outcome classifier stop wait timeout hooks w t floor limited asks {delay} {running}
      h =
    let hooked = (hooks.after_attempt (State.new p.attempt p.elapsed outcome) w).1 in
    let judged = (classifier outcome hooked).1 in
    let went =
      subst (λ o. (step p outcome classifier stop wait o hooks w).0 ≡ Step.again delay running)
        limited h in
    ground (arith, asks (state_of p) (stop (state_of p) judged).1)
