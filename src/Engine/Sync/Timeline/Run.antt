-- ===== src/Engine/Sync/Timeline/Run.antt =====
-- The loop of src/engine/mod.rs runs along its timeline.
use tenacious.Prelude.{
  List, ℕ, zero, suc, ◌+◌, false, Bool-cases, inl, inr, none, ◌≡◌, refl, ◌∙◌, Ref, arith,
}
use tenacious.Prelude.{sym}
use mathlib.Core.Path.{subst}
use native.Mathlib.Decide.{dec_lt}
use mathlib.Core.List.{append-nil}
use tenacious.Duration.{Duration}
use tenacious.Clock.Virtual.{VirtualClock}
use tenacious.Engine.Sync.{Retry, Cursor, loop, run}
use tenacious.Engine.Sync.Timeline.Round.{at, On, loop-done, loop-again}
use tenacious.Engine.Sync.Timeline.{Plan, moment, due, pauses_before, Undue, Timed, Unfolds}

module _ {World R A O : Type 0} (cell : Ref World VirtualClock) (Before : ℕ → World → Type 0)
    (plan : Plan R A O) (self : Retry World R A O) (timed : Timed cell Before plan self)
    (origin : Duration) where
  Undue-suc : (i : ℕ) → Undue plan origin i → due plan origin i ≡ false → Undue plan origin (suc i)
  Undue-suc i earlier here j lt = elim (dec_lt j i) [
    | yes below ↦ earlier j below
    | no above ↦
        let same : j ≡ i = omega arith in subst (λ k. due plan origin k ≡ false) (sym same) here
  ]

  module _ (waits : List Duration) where
    loop-zero : (c : Cursor) (w : World) → (loop 0 self origin c w).0 ≡ none
    unfolding loop
    loop-zero c w = refl

    loop-Unfolds :
        (fuel i n : ℕ) (w : World)
        → i + fuel ≡ n
        → Undue plan origin i
        → On cell Before plan self timed origin waits i w
        → Unfolds cell Before plan origin waits n
            (loop fuel self origin (at cell Before plan self timed origin i) w)
    loop-Unfolds zero i n w total earlier on =
        let same : i ≡ n = omega arith in
        inr (
          subst (Undue plan origin) same earlier,
          loop-zero (at cell Before plan self timed origin i) w,
        )
    loop-Unfolds (suc fuel) i n w total earlier on = elim (Bool-cases (due plan origin i)) [
      | inl last ↦
          let (given, clock, called) =
            loop-done cell Before plan self timed origin waits fuel i w last on in
          inl (i, omega arith, (last, earlier), given, clock, called)
      | inr more ↦
          let (v, on', e) = loop-again cell Before plan self timed origin waits fuel i w more on in
          rw e (loop-Unfolds fuel (suc i) n v (omega arith) (Undue-suc i earlier more) on')
    ]

module _ {World R A O : Type 0} (cell : Ref World VirtualClock) (Before : ℕ → World → Type 0)
    (plan : Plan R A O) (self : Retry World R A O) (timed : Timed cell Before plan self) where
  -- The whole loop against its timeline, with times, waits and timeouts. Suppose that the classifier,
  -- the stop and the wait strategy answer by functions of the outcome and of the state, that the
  -- operation, called for the `i`th time, counted from 0, has the `i`th outcome and takes the `i`th
  -- time on the virtual clock in the cell as long as `Before i` holds of the world, that this call
  -- makes `Before (i + 1)` hold, and that no other part moves the clock or disturbs `Before`. Then,
  -- with any fuel, in every world where `Before 0` holds: if one of so many attempts is the last by the
  -- timeline, `run` gives the timeline's answer and stats for the first such attempt, the clock shows
  -- when its call returned and has recorded the waits before it, and `Before` holds of the next call;
  -- if none is, the fuel runs out. The times saturate at `Duration::MAX`, and the attempt numbers at
  -- `u32::MAX`.
  pub run-Unfolds :
      (fuel : ℕ) (w : World)
      → Before 0 w
      → Unfolds cell Before plan (cell.get w).now (cell.get w).waits fuel (run fuel self w)
  unfolding run moment pauses_before
  run-Unfolds fuel w fresh =
      let (same, on) = timed.read w in
      rw (timed.now w) (
        loop-Unfolds cell Before plan self timed (cell.get w).now (cell.get w).waits fuel 0 fuel
          (self.clock.now w).1 (omega arith) (λ j lt. absurd (omega arith))
          (same ∙ rw append-nil refl, on 0 fresh))
