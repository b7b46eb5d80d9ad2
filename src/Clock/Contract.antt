-- ===== src/Clock/Contract.antt =====
-- What the comments in src/clock.rs ask of a clock: a reading does not go back, and a completed
-- wait shows in the readings after it.
use tenacious.Prelude.{◌≤◌, arith}
use tenacious.Duration.{Duration, saturating_add}
use tenacious.Clock.{SyncClock}

module _ {World : Type 0} (clock : SyncClock World) (Ready : World → Type 0) where
  -- From a world where the clock is ready, to a later one.
  abbrev pub Onward : World → World → Type 0
  Onward w v = Ready w → Ready v × ((clock.now w).0 ≤ (clock.now v).0)

  -- `Ready` is what holds of the world once the clock has been read. A wait of `dur` shows as `dur`
  -- at least, up to `Duration::MAX`.
  pub record IsCoherent : Type 0 where
    pub now_mono : (w : World) → (clock.now w).0 ≤ (clock.now (clock.now w).1).0
    pub now_ready : (w : World) → Ready w → Ready (clock.now w).1
    pub wait_ready : (dur : Duration) (w : World) → Ready w → Ready (clock.wait dur w).1
    pub wait_covers :
        (dur : Duration) (w : World)
        → Ready w
        → saturating_add (clock.now w).0 dur ≤ (clock.now (clock.wait dur w).1).0

module _ {World : Type 0} (clock : SyncClock World) (Ready : World → Type 0)
    (coherent : IsCoherent clock Ready) where
  pub now-Onward : (w : World) → Onward clock Ready w (clock.now w).1
  now-Onward w ready = (coherent.now_ready w ready, coherent.now_mono w)

module _ {World : Type 0} (clock : SyncClock World) (Ready : World → Type 0) where
  pub Onward-trans :
      (u v w : World) → Onward clock Ready u v → Onward clock Ready v w → Onward clock Ready u w
  Onward-trans u v w p q ready =
      let (there, le) = p ready in let (beyond, le') = q there in (beyond, omega arith)
