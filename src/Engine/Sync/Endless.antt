-- ===== src/Engine/Sync/Endless.antt =====
-- When the loop of src/engine/mod.rs does not end.
use tenacious.Prelude.{
  ◌≤◌, ◌⊎◌, inl, inr, some, lt→not_leb, arith, ℕ, zero, suc, false, none, ◌≡◌, refl, Option, M,
}
use tenacious.State.{RetryState, for_attempt, with_elapsed, with_previous_delay}
use tenacious.Duration.{Duration, saturating_sub}
use tenacious.Decision.{Verdict}
use tenacious.Engine.Step.{Step, step, settle, Progress, timeout_exceeded, state_of}
use tenacious.Engine.Sync.{Retry, Cursor, Finished, round, resume, loop, run, elapsed}

-- The loop goes round again.
abbrev Again : {R A O : Type 0} → Step R A O → Type 0
Again (Step.done result stats) = ⊥
Again (Step.again delay running) = Unit

module _ {World R A O : Type 0} (self : Retry World R A O)
    (retries : (outcome : O) (w : World)
      → (last : O) × ((self.classifier outcome w).0 ≡ Verdict.retry last))
    (Shows : Duration → Type 0)
    (goes_on : (state : RetryState) (w : World)
      → Shows state.elapsed
      → (self.stop state w).0 ≡ false)
    (within : (elapsed : Duration) → Shows elapsed → timeout_exceeded self.timeout elapsed ≡ false)
    (origin : Duration)
    (shows : (w : World) → Shows (saturating_sub (self.clock.now w).0 origin)) where
  settle-Again :
      (p : Progress) (verdict : Verdict R A O) (last : O) (w : World)
      → Shows p.elapsed
      → verdict ≡ Verdict.retry last
      → Again (settle p self.stop self.wait self.timeout self.hooks verdict w).0
  unfolding settle state_of for_attempt with_elapsed with_previous_delay
  settle-Again p verdict last w shown e =
      rw (e, goes_on (state_of p) w shown, within p.elapsed shown) tt

  round-Again : (c : Cursor) (w : World) → Again (round self origin c w).0
  unfolding round step elapsed
  round-Again c w = settle-Again _ _ _ _ (shows _) (retries _ _).1

  resume-none :
      (go : Cursor → M World (Option (Finished R A O)))
      → ((c : Cursor) (w : World) → (go c w).0 ≡ none)
      → (c : Cursor) (next : Step R A O) (w : World) → Again next
      → (resume go self.clock c next w).0 ≡ none
  unfolding resume
  resume-none go more c (Step.done result stats) w ends = absurd ends
  resume-none go more c (Step.again delay running) w on = more _ _

  loop-none : (fuel : ℕ) (c : Cursor) (w : World) → (loop fuel self origin c w).0 ≡ none
  unfolding loop
  loop-none zero c w = refl
  loop-none (suc fuel) c w =
      resume-none (loop fuel self origin) (loop-none fuel) c (round self origin c w).0
        (round self origin c w).1 (round-Again c w)

module _ {World R A O : Type 0} (self : Retry World R A O)
    (retries : (outcome : O) (w : World)
      → (last : O) × ((self.classifier outcome w).0 ≡ Verdict.retry last)) where
  -- If every outcome is classified `Retry`, the stop strategy never stops and there is no timeout,
  -- then the loop does not end: no amount of fuel is enough, in any world.
  run-none :
      ((state : RetryState) (w : World) → (self.stop state w).0 ≡ false)
      → self.timeout ≡ none
      → (fuel : ℕ) (w : World) → (run fuel self w).0 ≡ none
  unfolding run timeout_exceeded
  run-none goes_on unlimited fuel w =
      loop-none self retries (λ elapsed. Unit {0}) (λ state v _. goes_on state v)
        (λ elapsed _. rw unlimited refl) _ (λ v. tt) fuel _ _

  -- A clock that does not advance: if every outcome is classified `Retry` and the clock always reads
  -- the same, then a stop strategy that does not stop where no time has passed, such as
  -- `stop::elapsed`, never ends the loop, and neither does a timeout that is not 0: no amount of fuel
  -- is enough, in any world.
  pub run_frozen-none :
      (reading : Duration)
      → ((w : World) → (self.clock.now w).0 ≡ reading)
      → ((state : RetryState) (w : World) → state.elapsed ≡ 0 → (self.stop state w).0 ≡ false)
      → (t : Duration) → 1 ≤ t
      → (self.timeout ≡ none) ⊎ (self.timeout ≡ some t)
      → (fuel : ℕ) (w : World) → (run fuel self w).0 ≡ none
  unfolding run timeout_exceeded
  run_frozen-none reading frozen goes_on t pos limit fuel w =
      loop-none self retries (λ elapsed. elapsed ≡ 0) goes_on
        (λ elapsed passed. elim limit [
          | inl unlimited ↦ rw unlimited refl
          | inr limited ↦ rw (limited, passed) (lt→not_leb t 0 pos)
        ])
        _ (λ v. rw (frozen v, frozen w) (omega arith)) fuel _ _
