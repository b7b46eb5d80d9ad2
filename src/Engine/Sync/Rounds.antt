-- ===== src/Engine/Sync/Rounds.antt =====
-- The fuel of the loop in src/engine/mod.rs beside the attempts that it makes.
use tenacious.Prelude.{ℕ, zero, suc, ◌+◌, ◌≤◌, ◌<◌, ◌≡◌, refl, ap, arith, some}
use mathlib.Core.Option.{some-injective}
use tenacious.Duration.{Duration}
use tenacious.Engine.Step.{Step, stats_for}
use tenacious.Engine.Sync.{Retry, Cursor, Finished, start, next_cursor, round, resume, loop, run}
use tenacious.Engine.Sync.Outcome.{round-done}

module _ {World R A O : Type 0} (self : Retry World R A O) where
  resume-lt :
      (fuel : ℕ) (origin : Duration) (c : Cursor) (w : World) (next : Step R A O)
      → (round self origin c w).0 ≡ next
      → ((c' : Cursor) (v : World) (f : Finished R A O)
          → (loop fuel self origin c' v).0 ≡ some f
          → f.1.attempts < c'.attempt + fuel)
      → (v : World) (f : Finished R A O)
      → (resume (loop fuel self origin) self.clock c next v).0 ≡ some f
      → f.1.attempts < c.attempt + suc fuel
  unfolding resume stats_for
  resume-lt fuel origin c w (Step.done result stats) e more v f h =
      let same = ap (λ (g : Finished R A O). g.1.attempts) (some-injective _ _ h) in
      let counted = ap (λ s. s.attempts) (round-done self origin c w e).0 in omega arith
  resume-lt fuel origin c w (Step.again delay running) e more v f h =
      let bound = more (next_cursor c delay running) _ f h in omega arith

  loop-lt :
      (fuel : ℕ) (origin : Duration) (c : Cursor) (w : World) (f : Finished R A O)
      → (loop fuel self origin c w).0 ≡ some f
      → f.1.attempts < c.attempt + fuel
  unfolding loop
  loop-lt zero origin c w f h = cc
  loop-lt (suc fuel) origin c w f h =
      resume-lt fuel origin c w (round self origin c w).0 refl (loop-lt fuel origin) _ f h

  -- A run that returns has made as many attempts as its fuel at most.
  pub run-le :
      (fuel : ℕ) (w : World) (f : Finished R A O)
      → (run fuel self w).0 ≡ some f
      → f.1.attempts ≤ fuel
  unfolding run
  run-le fuel w f h =
      let lt = loop-lt fuel (self.clock.now w).0 start (self.clock.now w).1 f h in omega arith
