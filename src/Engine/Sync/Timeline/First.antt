-- ===== src/Engine/Sync/Timeline/First.antt =====
-- What the timeline of src/engine/mod.rs says of the attempt that is known to be the last.
use tenacious.Prelude.{
  ℕ, suc, ◌<◌, ◌++◌, List, Option, Bool, true, false, some, ◌≡◌, inl, inr, Ref, arith,
}
use mathlib.Core.Path.{subst}
use native.Mathlib.Decide.{dec_lt}
use tenacious.Duration.{Duration}
use tenacious.Clock.Virtual.{VirtualClock}
use tenacious.Engine.Sync.{Finished}
use tenacious.Engine.Sync.Timeline.{Plan, Unfolds, IsFirst, answer, returned, pauses_before}

pub not_both : {b : Bool} → b ≡ true → b ≡ false → ⊥
not_both t f = cc

module _ {World R A O : Type 0} (cell : Ref World VirtualClock) (Before : ℕ → World → Type 0)
    (plan : Plan R A O) (origin : Duration) (waits : List Duration) where
  -- The result is the answer of the `i`th attempt.
  abbrev pub Answered : ℕ → Option (Finished R A O) × World → Type 0
  Answered i result =
      (result.0 ≡ some (answer plan origin i))
      × (cell.get result.1
          ≡ record { now = returned plan origin i; waits = waits ++ pauses_before plan origin i })
      × Before (suc i) result.1

  -- Where the fuel reaches the first attempt that is the last, the result is its answer.
  pub Unfolds-Answered :
      (i n : ℕ) (result : Option (Finished R A O) × World)
      → IsFirst plan origin i
      → i < n
      → Unfolds cell Before plan origin waits n result
      → Answered i result
  Unfolds-Answered i n result (last, earlier) reached (inr (none_due, e)) =
      absurd (not_both last (none_due i reached))
  Unfolds-Answered i n result (last, earlier) reached
        (inl (j, lt, (last', earlier'), e, clock, called)) =
      elim (dec_lt j i) [
        | yes before ↦ absurd (not_both last' (earlier j before))
        | no not_before ↦ elim (dec_lt i j) [
          | yes before ↦ absurd (not_both last (earlier' i before))
          | no not_after ↦
              let same : j ≡ i = omega arith in
              subst (λ k. Answered k result) same (e, clock, called)
        ]
      ]
