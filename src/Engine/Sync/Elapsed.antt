-- ===== src/Engine/Sync/Elapsed.antt =====
-- The waits and the time of src/engine/mod.rs, on any clock that keeps the contract of src/clock.rs.
use tenacious.Prelude.{ℕ, ◌-◌, ◌≤◌, min, Bool-cases, inl, inr, ◌≡◌, some, ◌==◌, ==→eq, ap, arith}
use tenacious.Duration
use tenacious.Duration.{Duration, saturating_add}
use tenacious.Clock.Contract.{IsCoherent, Onward, now-Onward, Onward-trans}
use tenacious.Engine.Step.{stats_for}
use tenacious.Engine.Sync.{Retry, Finished, start, round, run, elapsed}
use tenacious.Engine.Sync.Rules.{slept, loop_inv}
use tenacious.Engine.Sync.Outcome.{round-done, round-again}
use tenacious.Engine.Sync.Frame.{Moves, round-Rel, at_return-Rel}

module _ {World R A O : Type 0} (self : Retry World R A O) (Ready : World → Type 0)
    (coherent : IsCoherent self.clock Ready) (moves : Moves (Onward self.clock Ready) self) where
  -- What has been waited shows on the clock.
  abbrev Shows : Duration → Duration → World → Type 0
  Shows origin waited w = Ready w × (saturating_add origin waited ≤ (self.clock.now w).0)

  slept-Shows :
      (origin waited delay : Duration) (w : World)
      → Shows origin waited w
      → Shows origin (saturating_add waited delay) (slept self.clock delay w)
  slept-Shows origin waited delay w (ready, le) = elim (Bool-cases (delay == 0)) [
    | inl z ↦ let no_wait = ==→eq delay 0 z in rw (slept, z) (ready, omega arith)
    | inr pos ↦
        rw (slept, pos)
          (
            coherent.wait_ready delay w ready,
            let covered = coherent.wait_covers delay w ready in omega arith,
          )
  ]

  -- On a clock that keeps its contract, and where no other part sets it back: when `run` returns,
  -- the `total_elapsed` in its stats is at least their `total_wait`, or at least all that the clock
  -- could show from its first reading up to `Duration::MAX`. The clock is ready after that reading.
  pub run_total_elapsed-ge :
      (fuel : ℕ) (w : World) {f : Finished R A O}
      → Ready (self.clock.now w).1
      → (run fuel self w).0 ≡ some f
      → min f.1.total_wait (Duration.max - (self.clock.now w).0) ≤ f.1.total_elapsed
  unfolding run stats_for elapsed
  run_total_elapsed-ge fuel w {f} ready h =
      let (origin, from) = self.clock.now w in
      let begun = coherent.now_mono w in
      let trans = Onward-trans self.clock Ready in
      let now = now-Onward self.clock Ready coherent in
      loop_inv self origin (λ c v. Shows origin c.total_wait v)
        (λ g v. min g.1.total_wait (Duration.max - origin) ≤ g.1.total_elapsed)
        (λ c v delay running (held, le) went.
          let (held', on) = round-Rel _ trans self now moves origin c v held in
          rw (round-again self origin c v went).0
            (slept-Shows origin c.total_wait delay (round self origin c v).1 (held', omega arith)))
        (λ c v result stats (held, le) ended.
          let (held', on) = at_return-Rel _ trans self now moves origin c v held in
          let same = (round-done self origin c v ended).0 in
          let waited = ap (λ s. s.total_wait) same in
          let counted = ap (λ s. s.total_elapsed) same in omega arith)
        fuel start from f (ready, omega arith) h
