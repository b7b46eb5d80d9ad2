-- ===== src/Engine/Sync/Spec.antt =====
-- What the loop of src/engine/mod.rs promises, without clocks, waits, hooks or a world.
pub mod Refinement
pub mod Stateless
pub mod Answers
use tenacious.Prelude.{
  ℕ, zero, suc, ◌+◌, ◌-◌, ◌≤◌, ◌<◌, min, Option, none, some, Result, ok, err, ◌≡◌, refl, ap, ◌∙◌,
  arith, M,
}
use tenacious.Prelude.{leb, le→leb, lt→not_leb, sym, Bool-cases, inl, inr, ◌==◌}
use mathlib.Core.Path.{subst}
use tenacious.State.{RetryState, for_attempt, with_elapsed, with_previous_delay}
use tenacious.Duration.{Duration}
use tenacious.Decision.{Verdict}
use tenacious.Engine.State
use tenacious.Engine.State.{StopReason}
use tenacious.Engine.Error.{RetryError}
use tenacious.Engine.Step.{Progress, step, settle, stats_for, state_of, timeout_exceeded}
use tenacious.Engine.Sync.Rules.{slept}
use tenacious.Engine.Sync.Frame.{Steady, settle-Rel}
use tenacious.Engine.Sync.{
  Retry, Cursor, Finished, u32_max, start, next_cursor, elapsed, before_state, progress_of, round,
  resume, loop, run,
}

-- An answer to the caller, and the number of attempts that it took.
abbrev pub Answer : Type 0 → Type 0 → Type 0 → Type 0
Answer R A O = Result R (RetryError A O) × ℕ

module _ {R A O : Type 0} where
  -- The verdict on the last attempt is the answer.
  abbrev pub final : Verdict R A O → ℕ → Answer R A O
  final (Verdict.accept value) k = (ok value, k)
  final (Verdict.abort last) k = (err (RetryError.aborted last), k)
  final (Verdict.retry last) k = (err (RetryError.exhausted last), k)

  -- The verdict on an earlier attempt may ask for the answer of the later ones.
  abbrev pub early : Verdict R A O → ℕ → Answer R A O → Answer R A O
  early (Verdict.accept value) k rest = (ok value, k)
  early (Verdict.abort last) k rest = (err (RetryError.aborted last), k)
  early (Verdict.retry last) k rest = rest

  -- The answer to attempts `k`, `k + 1`, ..., of which `more` may follow the first. The outcome of
  -- the `i`th attempt is `outcomes i`.
  abbrev pub resolve : (O → Verdict R A O) → (ℕ → O) → (more : ℕ) → (k : ℕ) → Answer R A O
  resolve classify outcomes zero k = final (classify (outcomes k)) k
  resolve classify outcomes (suc more) k =
      early (classify (outcomes k)) k (resolve classify outcomes more (suc k))

-- What holds before the `k`th call of the operation goes on to hold.
abbrev pub Onto : {World : Type 0} → (ℕ → World → Type 0) → World → World → Type 0
Onto Before w v = (k : ℕ) → Before k w → Before k v

-- A retry whose operation is called with a world that depends on the number of the attempt:
-- `Before k` holds of the world up to the `k`th call of the operation, which has the `k`th of the
-- `outcomes`, whatever the other parts do in between.
pub record Follows {World R A O : Type 0} (Before : ℕ → World → Type 0)
    (classify : O → Verdict R A O) (outcomes : ℕ → O) (self : Retry World R A O) : Type 0 where
  pub classified : (outcome : O) (w : World) → (self.classifier outcome w).0 ≡ classify outcome
  pub delivered :
      (state : RetryState) (w : World)
      → Before state.attempt w
      → ((self.op state w).0 ≡ outcomes state.attempt)
        × Before (suc state.attempt) (self.op state w).1
  pub now : (w : World) → Onto Before w (self.clock.now w).1
  pub sleep : (delay : Duration) (w : World) → Onto Before w (self.clock.wait delay w).1
  pub rest : Steady (Onto Before) self

module _ {World R A O : Type 0} (Before : ℕ → World → Type 0) where
  -- The loop's result is the answer, and the operation has been called as often as the answer says.
  abbrev pub Meets : Option (Finished R A O) × World → Answer R A O → Type 0
  Meets result answer =
      (f : Finished R A O) × (result.0 ≡ some f)
      × (f.0 ≡ answer.0)
      × (f.1.attempts ≡ answer.1)
      × Before (suc answer.1) result.1
