-- ===== src/Engine/Sync/Timeline.antt =====
-- When the loop of src/engine/mod.rs makes its attempts on the virtual clock of src/clock.rs, and what
-- it answers, without a world: a specification with times, waits, timeouts and saturation.
mod Step
mod Round
pub mod Run
pub mod Clamped
pub mod First
use tenacious.Prelude.{
  ℕ, zero, suc, ◌+◌, ◌-◌, ◌<◌, min, Bool, true, false, ◌||◌, List, [], ◌∷◌, ◌++◌, ◌==◌,
  if◌then◌else◌, Option, none, some, ok, err, ◌≡◌, ◌⊎◌, Ref, leb,
}
use tenacious.Duration.{Duration, saturating_add, saturating_sub}
use tenacious.State.{RetryState}
use tenacious.Decision.{Verdict}
use tenacious.Clock.Virtual.{VirtualClock}
use tenacious.Engine.State.{StopReason}
use tenacious.Engine.Stats.{RetryStats}
use tenacious.Engine.Error.{RetryError}
use tenacious.Engine.Step.Log.{number}
use tenacious.Engine.Sync.{Retry, Finished}
use tenacious.Engine.Sync.Frame.{Steady}
use tenacious.Engine.Sync.Spec.{Onto}

-- What the parts of a retry answer. The calls of the operation are counted from 0: the `i`th takes
-- `takes i` and has the outcome `outcomes i`.
pub record Plan (R A O : Type 0) : Type 0 where
  pub classify : O → Verdict R A O
  pub outcomes : ℕ → O
  pub takes : ℕ → Duration
  pub stops : RetryState → Bool
  pub asks : RetryState → Duration
  pub timeout : Option Duration

-- The clock when an attempt begins, the wait before it, and all waits so far.
pub record Moment : Type 0 where
  pub reading : Duration
  pub previous : Option Duration
  pub waited : Duration

-- Nothing is left of the budget.
abbrev pub spent : Option Duration → Duration → Bool
spent none elapsed = false
spent (some t) elapsed = leb t elapsed

-- A wait is cut to what is left of the budget.
abbrev pub cut : Option Duration → Duration → Duration → Duration
cut none elapsed delay = delay
cut (some t) elapsed delay = min delay (t - elapsed)

module _ {R A O : Type 0} where
  -- Whether an attempt with this verdict is the last.
  abbrev pub settles : Verdict R A O → Bool → Bool
  settles (Verdict.accept value) over = true
  settles (Verdict.abort last) over = true
  settles (Verdict.retry last) over = over

  abbrev pub answered : Verdict R A O → ℕ → Duration → Duration → Finished R A O
  answered (Verdict.accept value) attempts elapsed waited = (
    ok value,
    record {
      attempts = attempts;
      total_elapsed = elapsed;
      total_wait = waited;
      stop_reason = StopReason.returned;
    },
  )
  answered (Verdict.abort last) attempts elapsed waited = (
    err (RetryError.aborted last),
    record {
      attempts = attempts;
      total_elapsed = elapsed;
      total_wait = waited;
      stop_reason = StopReason.aborted;
    },
  )
  answered (Verdict.retry last) attempts elapsed waited = (
    err (RetryError.exhausted last),
    record {
      attempts = attempts;
      total_elapsed = elapsed;
      total_wait = waited;
      stop_reason = StopReason.exhausted;
    },
  )

-- The timeline of a plan from a first reading of the clock on.
module _ {R A O : Type 0} (plan : Plan R A O) (origin : Duration) where
  -- When the `i`th call returns, if its attempt begins at `m`.
  abbrev returns : ℕ → Moment → Duration
  returns i m = saturating_add m.reading (plan.takes i)

  abbrev asked : ℕ → Moment → RetryState
  asked i m = record {
    attempt = number i;
    elapsed = saturating_sub (returns i m) origin;
    previous_delay = m.previous;
  }

  abbrev pauses : ℕ → Moment → Duration
  pauses i m = cut plan.timeout (asked i m).elapsed (plan.asks (asked i m))

  abbrev pub later : ℕ → Moment → Moment
  later i m = record {
    reading = saturating_add (returns i m) (pauses i m);
    previous = some (pauses i m);
    waited = saturating_add m.waited (pauses i m);
  }

  unfoldable pub moment : ℕ → Moment
  moment zero = record { reading = origin; previous = none; waited = 0 }
  moment (suc i) = later i (moment i)

  abbrev pub returned : ℕ → Duration
  returned i = returns i (moment i)

  abbrev pub state : ℕ → RetryState
  state i = asked i (moment i)

  abbrev pub pause : ℕ → Duration
  pause i = pauses i (moment i)

  -- Whether the attempt of the `i`th call is the last, if it is made.
  abbrev pub due : ℕ → Bool
  due i =
      settles (plan.classify (plan.outcomes i))
        (plan.stops (state i) || spent plan.timeout (state i).elapsed)

  -- What the caller gets if it is.
  abbrev pub answer : ℕ → Finished R A O
  answer i =
      answered (plan.classify (plan.outcomes i)) (number i) (state i).elapsed (moment i).waited

  -- The waits before it. A wait of 0 is left out.
  unfoldable pub pauses_before : ℕ → List Duration
  pauses_before zero = []
  pauses_before (suc i) = pauses_before i ++ (if pause i == 0 then [] else pause i ∷ [])

  -- None of the first `n` attempts is the last.
  abbrev pub Undue : ℕ → Type 0
  Undue n = (j : ℕ) → j < n → due j ≡ false

  abbrev pub IsFirst : ℕ → Type 0
  IsFirst i = (due i ≡ true) × Undue i

module _ {World : Type 0} (cell : Ref World VirtualClock) (Before : ℕ → World → Type 0) where
  -- The clock stands still, and the operation is called no more often.
  abbrev pub Still : World → World → Type 0
  Still w v = (cell.get v ≡ cell.get w) × Onto Before w v

module _ {World R A O : Type 0} (cell : Ref World VirtualClock) (Before : ℕ → World → Type 0) where
  -- A retry whose parts answer by the plan. `Before i` holds of the world up to the `i`th call of the
  -- operation. The parts may do what they like to the world, but only the clock's wait and the
  -- operation, by the time it takes, move the clock in the cell.
  pub record Timed (plan : Plan R A O) (self : Retry World R A O) : Type 0 where
    pub classified :
        (outcome : O) (w : World) → (self.classifier outcome w).0 ≡ plan.classify outcome
    pub stop : (state : RetryState) (w : World) → (self.stop state w).0 ≡ plan.stops state
    pub wait : (state : RetryState) (w : World) → (self.wait state w).0 ≡ plan.asks state
    pub now : (w : World) → (self.clock.now w).0 ≡ (cell.get w).now
    pub read : (w : World) → Still cell Before w (self.clock.now w).1
    pub sleep :
        (delay : Duration) (w : World)
        → let v = (self.clock.wait delay w).1 in
          (cell.get v ≡ record {
            now = saturating_add (cell.get w).now delay;
            waits = (cell.get w).waits ++ (delay ∷ []);
          })
          × Onto Before w v
    pub called :
        (i : ℕ) (state : RetryState) (w : World)
        → Before i w
        → let t = self.op state w in
          (t.0 ≡ plan.outcomes i)
          × (cell.get t.1 ≡ record {
            now = saturating_add (cell.get w).now (plan.takes i);
            waits = (cell.get w).waits;
          })
          × Before (suc i) t.1
    pub rest : Steady (Still cell Before) self
    pub timeout : self.timeout ≡ plan.timeout

  -- What the loop gives from this reading and these waits on, when `n` attempts may be made: the
  -- answer of the first attempt that is the last, if it is among them, with the clock as the timeline
  -- has it, and nothing otherwise.
  abbrev pub Unfolds :
      Plan R A O → Duration → List Duration → ℕ → Option (Finished R A O) × World → Type 0
  Unfolds plan origin waits n result =
      ((i : ℕ) × (i < n)
        × IsFirst plan origin i
        × (result.0 ≡ some (answer plan origin i))
        × (cell.get result.1
            ≡ record { now = returned plan origin i; waits = waits ++ pauses_before plan origin i })
        × Before (suc i) result.1)
      ⊎ Undue plan origin n × (result.0 ≡ none)
