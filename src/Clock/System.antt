-- ===== src/Clock/System.antt =====
-- src/clock.rs: `SystemClock`, and what it uses of the standard library.
pub mod Laws
use tenacious.Prelude.{M, pure, ◌>>=◌, Ref, Option, none, some}
use tenacious.Duration.{Duration, saturating_sub}
use tenacious.Clock.{SyncClock}

-- `Instant::now` and `thread::sleep`. An `Instant` is its nanoseconds on the platform's monotonic
-- clock.
pub record Platform (World : Type 0) : Type 0 where
  pub instant_now : M World Duration
  pub sleep : Duration → M World (Unit {0})

-- `OnceLock::get_or_init`: what the cell holds, or else what `init` gives, which it then holds.
abbrev pub stored_or : {World A : Type 0} → Ref World (Option A) → M World A → Option A → M World A
stored_or cell init (some a) w = (a, w)
stored_or cell init none w = let t = init w in (t.0, cell.set (some t.0) t.1)

abbrev pub get_or_init : {World A : Type 0} → Ref World (Option A) → M World A → M World A
get_or_init cell init w = stored_or cell init (cell.get w) w

module _ {World : Type 0} (platform : Platform World) where
  -- `Instant::elapsed`, which stops at 0.
  pub instant_elapsed : Duration → M World Duration
  instant_elapsed self = do reading ← platform.instant_now; pure (saturating_sub reading self)

  -- The cell is the process's `ANCHOR`.
  unfoldable pub now : Ref World (Option Duration) → M World Duration
  unfolding instant_elapsed
  now anchor = do origin ← get_or_init anchor platform.instant_now; instant_elapsed origin

  pub system_clock : Ref World (Option Duration) → SyncClock World
  unfolding now
  system_clock anchor = record { now = now anchor; wait = platform.sleep }
