-- ===== src/Clock/System/Laws.antt =====
-- `SystemClock` of src/clock.rs keeps the contract of a clock, wherever its anchor lies.
use tenacious.Prelude.{
  ◌+◌, ◌-◌, ◌≤◌, Ref, IsCell, Option, none, some, ◌⊎◌, inl, inr, ◌≡◌, refl, ◌∙◌, arith,
}
use tenacious.Duration.{Duration}
use tenacious.Clock.Contract.{IsCoherent}
use tenacious.Clock.System.{Platform, get_or_init, instant_elapsed, now, system_clock}
use tenacious.Engine.Sync.{elapsed}

module _ {World : Type 0} (platform : Platform World) (anchor : Ref World (Option Duration)) where
  -- The platform's clock does not go back, and a sleep lasts as long as it is asked to, at least.
  -- Neither touches the anchor, and writing the anchor does not touch the clock.
  pub record IsMonotonic : Type 0 where
    pub monotonic :
        (w : World)
        → (platform.instant_now w).0 ≤ (platform.instant_now (platform.instant_now w).1).0
    pub sleep_covers :
        (dur : Duration) (w : World)
        → (platform.instant_now w).0 + dur ≤ (platform.instant_now (platform.sleep dur w).1).0
    pub anchor_kept : (w : World) → anchor.get (platform.instant_now w).1 ≡ anchor.get w
    pub anchor_slept :
        (dur : Duration) (w : World) → anchor.get (platform.sleep dur w).1 ≡ anchor.get w
    pub set_onward :
        (a : Option Duration) (w : World)
        → (platform.instant_now w).0 ≤ (platform.instant_now (anchor.set a w)).0

  -- The anchor is set, to an instant that is not in the future.
  abbrev pub Anchored : World → Type 0
  Anchored w = (a : Duration) × (anchor.get w ≡ some a) × (a ≤ (platform.instant_now w).0)

  -- The instant that a reading of the clock is taken at: the second one of the first reading.
  abbrev pub read_at : World → Duration
  read_at w = (platform.instant_now (get_or_init anchor platform.instant_now w).1).0

  module _ (cell : IsCell anchor) (lawful : IsMonotonic) where
    -- A reading is taken from an anchor that it leaves set.
    now-since :
        (w : World)
        → (anchor.get w ≡ none) ⊎ Anchored w
        → (a : Duration) × (anchor.get (now platform anchor w).1 ≡ some a)
          × (a ≤ read_at w)
          × ((now platform anchor w).0 ≡ read_at w - a)
          × (read_at w ≤ (platform.instant_now (now platform anchor w).1).0)
    unfolding now instant_elapsed
    now-since w (inl unset) =
        let (t, v) = platform.instant_now w in
        let later = lawful.monotonic w in
        let written = lawful.set_onward (some t) v in
        rw (read_at, unset)
          (t, lawful.anchor_kept _ ∙ cell.get-set (some t) v, omega arith, refl, lawful.monotonic _)
    now-since w (inr (a, set, past)) =
        rw (read_at, set) (a, lawful.anchor_kept w ∙ set, past, refl, lawful.monotonic w)

    now_set :
        (w : World) (a : Duration)
        → anchor.get w ≡ some a
        → ((now platform anchor w).0 ≡ (platform.instant_now w).0 - a)
          × ((now platform anchor w).1 ≡ (platform.instant_now w).1)
    unfolding now instant_elapsed
    now_set w a set = rw set (refl, refl)

    now_mono_at :
        (w : World) (o : Option Duration)
        → anchor.get w ≡ o
        → (now platform anchor w).0 ≤ (now platform anchor (now platform anchor w).1).0
    now_mono_at w none unset =
        let (a, set, past, value, later) = now-since w (inl unset) in
        let again = (now_set (now platform anchor w).1 a set).0 in omega arith
    now_mono_at w (some a) set =
        let (value, world) = now_set w a set in
        let later = lawful.monotonic w in
        let again = (now_set (platform.instant_now w).1 a (lawful.anchor_kept w ∙ set)).0 in
        rw world (omega arith)

    -- `SystemClock` keeps the contract of a clock, on a monotonic platform and with its anchor in a
    -- lawful cell: a reading does not go back, and once an anchor is set that is not in the future, it
    -- stays so, and a sleep shows in the next reading in full.
    pub system_clock-IsCoherent : IsCoherent (system_clock platform anchor) Anchored
    unfolding system_clock
    system_clock-IsCoherent = record {
      now_mono = λ w. now_mono_at w (anchor.get w) refl;
      now_ready = λ w (a, set, past).
          let later = lawful.monotonic w in
          rw (now_set w a set).1 (a, lawful.anchor_kept w ∙ set, omega arith);
      wait_ready = λ dur w (a, set, past).
          let covered = lawful.sleep_covers dur w in
          (a, lawful.anchor_slept dur w ∙ set, omega arith);
      wait_covers = λ dur w (a, set, past).
          let covered = lawful.sleep_covers dur w in
          let before = (now_set w a set).0 in
          let after = (now_set (platform.sleep dur w).1 a (lawful.anchor_slept dur w ∙ set)).0 in
          omega arith;
    }

    -- The first reading sets the anchor.
    pub now-Anchored :
        (w : World) → (anchor.get w ≡ none) ⊎ Anchored w → Anchored (now platform anchor w).1
    now-Anchored w sane =
        let (a, set, past, value, later) = now-since w sane in (a, set, omega arith)

    -- The anchor drops out of every difference: on a monotonic platform, whether the anchor was
    -- still unset when the baseline was read or had been set in the past, what the loop then takes
    -- for the elapsed time in a world with the same anchor is the time on the platform's clock
    -- since the instant at which the baseline was read, or 0 if that is not over yet.
    elapsed-now :
        (w v : World)
        → (anchor.get w ≡ none) ⊎ Anchored w
        → anchor.get v ≡ anchor.get (now platform anchor w).1
        → (elapsed (now platform anchor) (now platform anchor w).0 v).0
          ≡ (platform.instant_now v).0 - read_at w
    unfolding elapsed
    elapsed-now w v sane same =
        let (a, set, past, value, later) = now-since w sane in
        let reading = (now_set v a (same ∙ set)).0 in omega arith
