-- ===== src/Engine/Sync/Waits.antt =====
-- The loop of src/engine/mod.rs on the virtual clock of src/clock.rs.
use tenacious.Prelude.{
  ℕ, ◌+◌, ◌≤◌, min, List, [], ◌∷◌, ◌++◌, Bool-cases, inl, inr, ◌≡◌, sym, ◌∙◌, some, ◌==◌,
}
use tenacious.Prelude.{sum, sum-append, arith, ==→eq, Ref, IsCell}
use mathlib.Core.Path.{subst}
use mathlib.Core.List.{append-nil, append_assoc}
use tenacious.Duration
use tenacious.Duration.{Duration, saturating_add}
use tenacious.Clock.Virtual.{VirtualClock, sync_clock}
use tenacious.Clock.Virtual.Laws.{record_wait-get}
use tenacious.Engine.Step.{stats_for}
use tenacious.Engine.Sync.{Retry, Cursor, Finished, start, round, run}
use tenacious.Engine.Sync.Rules.{slept, loop_inv}
use tenacious.Engine.Sync.Outcome.{round-done, round-again}
use tenacious.Engine.Sync.Builder.{with_clock}
use tenacious.Engine.Sync.Frame.{Keeps, round-look}

-- The clock after waiting for these times, one after the other.
abbrev pub after_waits : VirtualClock → List Duration → VirtualClock
after_waits clock durs = record {
  now = min (clock.now + sum durs) Duration.max;
  waits = clock.waits ++ durs;
}

module _ {World : Type 0} (cell : Ref World VirtualClock) where
  -- The clock has waited for `total`, up to `Duration::MAX`, since it was `before`.
  abbrev pub Waited : VirtualClock → Duration → World → Type 0
  Waited before total w =
      (durs : List Duration) × (cell.get w ≡ after_waits before durs)
      × (total ≡ min (sum durs) Duration.max)

module _ {World : Type 0} (cell : Ref World VirtualClock) (lawful : IsCell cell) where
  after_waits-append :
      (before : VirtualClock) (durs : List Duration) (delay : Duration)
      → record {
        now = saturating_add (after_waits before durs).now delay;
        waits = (after_waits before durs).waits ++ (delay ∷ []);
      }
        ≡ after_waits before (durs ++ (delay ∷ []))
  after_waits-append before durs delay =
      let time : saturating_add (min (before.now + sum durs) Duration.max) delay
          ≡ min (before.now + sum (durs ++ (delay ∷ []))) Duration.max =
        omega (arith, sum-append durs (delay ∷ [])) in
      rw (append_assoc, time)

  at_start : (before : VirtualClock) → before.now ≤ Duration.max → before ≡ after_waits before []
  at_start before small =
      let now : before.now ≡ min (before.now + 0) Duration.max = omega arith in
      rw (append-nil, ← now)

  slept-Waited :
      (before : VirtualClock) (total delay : Duration) (w : World)
      → Waited cell before total w
      → Waited cell before (saturating_add total delay) (slept (sync_clock cell) delay w)
  unfolding sync_clock
  slept-Waited before total delay w (durs, e, s) = elim (Bool-cases (delay == 0)) [
    | inl z ↦ let none_left = ==→eq delay 0 z in (durs, rw (slept, z) e, omega arith)
    | inr pos ↦ (
      durs ++ (delay ∷ []),
      rw (slept, pos, record_wait-get cell lawful, e) (after_waits-append before durs delay),
      omega (arith, sum-append durs (delay ∷ [])),
    )
  ]

  module _ {R A O : Type 0} (self : Retry World R A O)
      (keeps : Keeps cell.get (with_clock (sync_clock cell) self)) where
    unmoved :
        (before : VirtualClock) (origin : Duration) (c : Cursor) (v : World) (total : Duration)
        → Waited cell before total v
        → Waited cell before total (round (with_clock (sync_clock cell) self) origin c v).1
    unmoved before origin c v total (durs, e, s) =
        (durs, round-look cell.get _ keeps origin c v ∙ e, s)

    -- On a virtual clock in a lawful cell, which shows `Duration::MAX` at most and which only
    -- the loop's own sleeps move: when `run` returns, it leaves the clock as it was but for a
    -- list of waits. They are recorded in order, time has moved by their sum, and their sum is
    -- the `total_wait` in the stats, both up to `Duration::MAX`.
    pub run-waits :
        (fuel : ℕ) (w : World) {f : Finished R A O}
        → (cell.get w).now ≤ Duration.max
        → (run fuel (with_clock (sync_clock cell) self) w).0 ≡ some f
        → Waited cell (cell.get w) f.1.total_wait (run fuel (with_clock (sync_clock cell) self) w).1
    unfolding run stats_for with_clock
    run-waits fuel w {f} small h =
        let m = with_clock (sync_clock cell) self in
        let before = cell.get w in
        let (origin, from) = m.clock.now w in
        let same : cell.get from ≡ before = keeps.now w in
        loop_inv m origin (λ c v. Waited cell before c.total_wait v)
          (λ g v. Waited cell before g.1.total_wait v)
          (λ c v delay running p e.
            subst (λ t. Waited cell before t (slept m.clock delay (round m origin c v).1))
              (sym (round-again m origin c v e).0)
              (slept-Waited before c.total_wait delay _ (unmoved before origin c v _ p)))
          (λ c v result stats p e.
            subst (λ s. Waited cell before s.total_wait (round m origin c v).1)
              (sym (round-done m origin c v e).0) (unmoved before origin c v _ p))
          fuel start from f ([], same ∙ at_start before small, omega arith) h
