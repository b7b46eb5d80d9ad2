-- ===== src/Engine/Sync/Rules.antt =====
-- Rules for reasoning about the loop of src/engine/mod.rs with its body kept shut.
use tenacious.Prelude.{
  ℕ, zero, suc, ◌+◌, ◌≤◌, ◌<◌, some, Result, ◌≡◌, refl, arith, ◌==◌, skip, if◌then◌else◌,
}
use mathlib.Core.Path.{subst}
use mathlib.Core.Option.{some-injective}
use tenacious.Duration.{Duration}
use tenacious.Clock.{SyncClock}
use tenacious.Engine.Stats.{RetryStats}
use tenacious.Engine.Error.{RetryError}
use tenacious.Engine.Step.{Step}
use tenacious.Engine.Sync.{Retry, Cursor, Finished, u32_max, next_cursor, round, resume, loop}

module _ {World : Type 0} where
  -- The world after the sleep.
  abbrev pub slept : SyncClock World → Duration → World → World
  slept clock delay w = ((if delay == 0 then skip else clock.wait delay) w).1

module _ {World R A O : Type 0} (self : Retry World R A O) (origin : Duration) where
  -- An invariant of the loop's head that a last round turns into `Q`.
  module _ {ℓ κ} (P : Cursor → World → Type ℓ) (Q : Finished R A O → World → Type κ)
      (keep : (c : Cursor) (w : World) (delay running : Duration)
        → P c w
        → (round self origin c w).0 ≡ Step.again delay running
        → P (next_cursor c delay running) (slept self.clock delay (round self origin c w).1))
      (leave : (c : Cursor) (w : World) (result : Result R (RetryError A O)) (stats : RetryStats)
        → P c w
        → (round self origin c w).0 ≡ Step.done result stats
        → Q (result, stats) (round self origin c w).1) where
    resume_inv :
        (fuel : ℕ)
        → ((c : Cursor) (w : World) (f : Finished R A O)
            → P c w
            → (loop fuel self origin c w).0 ≡ some f
            → Q f (loop fuel self origin c w).1)
        → (c : Cursor) (w : World) (next : Step R A O) → (round self origin c w).0 ≡ next
        → P c w
        → (f : Finished R A O)
        → let after = resume (loop fuel self origin) self.clock c next (round self origin c w).1 in
          after.0 ≡ some f → Q f after.1
    unfolding resume
    resume_inv fuel more c w (Step.done result stats) e p f h =
        subst (λ g. Q g (round self origin c w).1) (some-injective _ _ h)
          (leave c w result stats p e)
    resume_inv fuel more c w (Step.again delay running) e p f h =
        more (next_cursor c delay running) (slept self.clock delay (round self origin c w).1) f
          (keep c w delay running p e) h

    pub loop_inv :
        (fuel : ℕ) (c : Cursor) (w : World) (f : Finished R A O)
        → P c w
        → (loop fuel self origin c w).0 ≡ some f
        → Q f (loop fuel self origin c w).1
    unfolding loop
    loop_inv zero c w f p h = cc
    loop_inv (suc fuel) c w f p h =
        resume_inv fuel (loop_inv fuel) c w (round self origin c w).0 refl p f h

  -- If every round that goes on leaves the attempts below `n`, fuel for `n` attempts is enough.
  module _ (n : ℕ) (small : n ≤ u32_max)
      (below : (c : Cursor) (w : World) (delay running : Duration)
        → (round self origin c w).0 ≡ Step.again delay running
        → c.attempt < n) where
    resume_total :
        (fuel : ℕ)
        → ((c : Cursor) (w : World)
            → c.attempt ≤ n
            → n < c.attempt + fuel
            → (f : Finished R A O) × ((loop fuel self origin c w).0 ≡ some f))
        → (c : Cursor) (w : World) (next : Step R A O) → (round self origin c w).0 ≡ next
        → n < c.attempt + suc fuel
        → (f : Finished R A O) × ((resume
              (loop fuel self origin)
              self.clock
              c
              next
              (round self origin c w).1).0
            ≡ some f)
    unfolding resume
    resume_total fuel more c w (Step.done result stats) e h = ((result, stats), refl)
    resume_total fuel more c w (Step.again delay running) e h =
        let lt = below c w delay running e in
        more (next_cursor c delay running) (slept self.clock delay (round self origin c w).1)
          (omega arith) (omega arith)

    pub loop_total :
        (fuel : ℕ) (c : Cursor) (w : World)
        → c.attempt ≤ n
        → n < c.attempt + fuel
        → (f : Finished R A O) × ((loop fuel self origin c w).0 ≡ some f)
    unfolding loop
    loop_total zero c w le h = absurd (omega arith)
    loop_total (suc fuel) c w le h =
        resume_total fuel (loop_total fuel) c w (round self origin c w).0 refl h

  -- An invariant that counts the rounds that may go on bounds the fuel.
  module _ {ℓ} (P : ℕ → Cursor → World → Type ℓ)
      (keep : (k : ℕ) (c : Cursor) (w : World) (delay running : Duration)
        → P (suc k) c w
        → (round self origin c w).0 ≡ Step.again delay running
        → P k (next_cursor c delay running) (slept self.clock delay (round self origin c w).1))
      (last : (c : Cursor) (w : World) (delay running : Duration)
        → P zero c w
        → (round self origin c w).0 ≡ Step.again delay running
        → ⊥) where
    resume_counted :
        (k : ℕ) (c : Cursor) (w : World) (next : Step R A O)
        → ((delay running : Duration)
            → next ≡ Step.again delay running
            → (f : Finished R A O) × ((loop k self origin
                  (next_cursor c delay running)
                  (slept self.clock delay w)).0
                ≡ some f))
        → (f : Finished R A O) × ((resume (loop k self origin) self.clock c next w).0 ≡ some f)
    unfolding resume
    resume_counted k c w (Step.done result stats) more = ((result, stats), refl)
    resume_counted k c w (Step.again delay running) more = more delay running refl

    pub loop_counted :
        (k : ℕ) (c : Cursor) (w : World)
        → P k c w
        → (f : Finished R A O) × ((loop (suc k) self origin c w).0 ≡ some f)
    unfolding loop
    loop_counted zero c w p =
        resume_counted 0 c (round self origin c w).1 (round self origin c w).0
          (λ delay running went. absurd (last c w delay running p went))
    loop_counted (suc k) c w p =
        resume_counted (suc k) c (round self origin c w).1 (round self origin c w).0
          (λ delay running went. loop_counted k _ _ (keep k c w delay running p went))
