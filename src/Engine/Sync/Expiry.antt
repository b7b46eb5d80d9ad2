-- ===== src/Engine/Sync/Expiry.antt =====
-- That a timeout ends the loop of src/engine/mod.rs by itself, on any clock that keeps the contract of
-- src/clock.rs.
use tenacious.Prelude.{
  ℕ, suc, ◌+◌, ◌-◌, ◌*◌, ◌/◌, ◌≤◌, min, Bool-cases, inl, inr, ◌≡◌, refl, some, ◌==◌, ==→eq, arith,
}
use mathlib.Core.Path.{subst}
use tenacious.State.{RetryState}
use tenacious.Duration
use tenacious.Duration.{Duration, saturating_add}
use tenacious.Clock.Contract.{IsCoherent, Onward, now-Onward, Onward-trans}
use tenacious.Engine.Step.{Step}
use tenacious.Engine.Step.Laws.{WithinBudget, step_again-ge}
use tenacious.Engine.Sync.{Retry, Cursor, Finished, start, round, run, elapsed}
use tenacious.Engine.Sync.Rules.{slept, loop_counted}
use tenacious.Engine.Sync.Outcome.{at_return, post_elapsed, round-again}
use tenacious.Engine.Sync.Frame.{Moves, at_return-Rel, after_return-Rel}

one_more : (k floor : ℕ) → suc k * floor ≡ k * floor + floor
one_more k floor = omega arith

covered_by : (t floor : ℕ) → 1 ≤ floor → t ≤ (t / floor + 1) * floor
covered_by t floor pos = omega arith

module _ {World R A O : Type 0} (self : Retry World R A O) (Ready : World → Type 0)
    (coherent : IsCoherent self.clock Ready) (moves : Moves (Onward self.clock Ready) self)
    (t floor : Duration) (limited : self.timeout ≡ some t) (pos : 1 ≤ floor)
    (asks : (state : RetryState) (v : World) → floor ≤ (self.wait state v).0) where
  round_again-ge :
      (origin : Duration) (c : Cursor) (w : World) {delay running : Duration}
      → (round self origin c w).0 ≡ Step.again delay running
      → min floor (t - post_elapsed self origin c w) ≤ delay
  unfolding round
  round_again-ge origin c w h = step_again-ge _ _ _ _ _ _ _ _ t floor limited asks h

  -- The deadline comes within `k` waits of the least length.
  abbrev Near : Duration → ℕ → World → Type 0
  Near origin k w =
      Ready w × (origin ≤ (self.clock.now w).0) × (origin + t ≤ (self.clock.now w).0 + k * floor)

  slept-Near :
      (origin delay : Duration) (k : ℕ) (w : World)
      → Ready w
      → origin ≤ (self.clock.now w).0
      → origin + t ≤ Duration.max
      → 1 ≤ delay
      → origin + t ≤ (self.clock.now w).0 + delay + k * floor
      → Near origin k (slept self.clock delay w)
  slept-Near origin delay k w ready since fits some_wait le = elim (Bool-cases (delay == 0)) [
    | inl z ↦ let none_left = ==→eq delay 0 z in absurd (omega arith)
    | inr pos ↦
        rw (slept, pos)
          (let covered = coherent.wait_covers delay w ready in
            (coherent.wait_ready delay w ready, omega arith, omega arith))
  ]

  -- A timeout ends the loop by itself: on a clock that keeps its contract, where no other part sets
  -- it back, with a wait strategy that asks for `floor` nanoseconds at least, not 0, and a deadline
  -- that the clock can still show, `run` returns with fuel `t / floor + 2` for the timeout `t`,
  -- whatever the operation, the classifier, the stop strategy and the hooks do. The clock is ready
  -- after its first reading.
  pub run_timeout-total :
      (w : World)
      → Ready (self.clock.now w).1
      → (self.clock.now w).0 + t ≤ Duration.max
      → (f : Finished R A O) × ((run (suc (t / floor + 1)) self w).0 ≡ some f)
  unfolding run elapsed
  run_timeout-total w ready fits =
      let (origin, from) = self.clock.now w in
      let begun = coherent.now_mono w in
      let trans = Onward-trans self.clock Ready in
      let now = now-Onward self.clock Ready coherent in
      loop_counted self origin (λ k c v. Near origin k v)
        (λ k c v delay running (held, since, le) went.
          let (there, on) = at_return-Rel _ trans self now moves origin c v held in
          let (held', on') = after_return-Rel _ trans self moves.rest now origin c v there in
          let budget =
            subst (λ o. WithinBudget o (post_elapsed self origin c v) delay) limited
              (round-again self origin c v went).1 in
          let ge = round_again-ge origin c v went in
          let seen : post_elapsed self origin c v
              ≡ (self.clock.now (at_return self origin c v)).0 - origin =
            refl in
          let grown = one_more k floor in
          slept-Near origin delay k (round self origin c v).1 held' (omega arith) fits (omega arith)
            (omega arith))
        (λ c v delay running (held, since, le) went.
          let (there, on) = at_return-Rel _ trans self now moves origin c v held in
          let budget =
            subst (λ o. WithinBudget o (post_elapsed self origin c v) delay) limited
              (round-again self origin c v went).1 in
          omega arith)
        (t / floor + 1) start from
        (ready, begun, let enough = covered_by t floor pos in omega arith)
