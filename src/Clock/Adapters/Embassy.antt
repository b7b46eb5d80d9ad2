-- ===== src/Clock/Adapters/Embassy.antt =====
-- src/clock.rs: `EmbassyClock`, on `embassy_time::{Instant, Timer}`, whose lengths are ticks.
pub mod Waits
use tenacious.Prelude.{
  ℕ, ◌+◌, ◌-◌, ◌*◌, ◌/◌, ◌%◌, ◌^◌, ◌≤◌, ◌<◌, ◌≡◌, ◌⊎◌, min, arith, ltb, leb, if◌then◌else◌, M, pure,
  ◌>>=◌,
}
use tenacious.Duration.{Duration}
use tenacious.Clock.{AsyncClock}
use tenacious.Clock.Adapters.{Instants, Timers}

abbrev pub u64_max : ℕ
u64_max = 2 ^ 64 - 1

abbrev u128_max : ℕ
u128_max = 2 ^ 128 - 1

-- `u128::div_ceil`
abbrev div_ceil : ℕ → ℕ → ℕ
div_ceil a b = if ltb 0 (a % b) then a / b + 1 else a / b

-- `to_embassy_duration`, in ticks. `TICK_HZ` is a constant of the runtime.
unfoldable pub to_embassy_ticks : ℕ → Duration → ℕ
to_embassy_ticks tick_hz dur =
    let ticks_ceil = div_ceil (min (dur / 1000 * tick_hz) u128_max) 1_000_000 in
    if leb ticks_ceil u64_max then ticks_ceil else u64_max

-- For every tick rate, the ticks for the Embassy timer fit a `u64`, and last less than one tick
-- longer than the whole microseconds of the duration; they cover these, unless they are the most
-- ticks that fit.
pub to_embassy_ticks_bounds :
    (tick_hz : ℕ) (dur : Duration)
    → let ticks = to_embassy_ticks tick_hz dur in
      let wanted = dur / 1000 * tick_hz in
      (ticks ≤ u64_max)
      × (1_000_000 * ticks < wanted + 1_000_000)
      × ((wanted ≤ 1_000_000 * ticks) ⊎ (ticks ≡ u64_max))
unfolding to_embassy_ticks
to_embassy_ticks_bounds tick_hz dur = ground arith

pub record EmbassyClock (Instant : Type 0) : Type 0 where
  pub origin : Instant

-- `as_micros` is the runtime's conversion of ticks.
module _ {World Instant Timer : Type 0} (instants : Instants World Instant ℕ)
    (timers : Timers World ℕ Timer) (tick_hz : ℕ) (as_micros : ℕ → ℕ) where
  unfoldable new : M World (EmbassyClock Instant)
  new = do origin ← instants.instant_now; pure (record { origin = origin })

  pub now : EmbassyClock Instant → M World Duration
  now self = do ticks ← instants.elapsed self.origin; pure (as_micros ticks * 1000)

  unfoldable pub async_clock : EmbassyClock Instant → AsyncClock World Timer
  unfolding now
  async_clock self = record {
    now = now self;
    wait_async = λ dur. timers.after (to_embassy_ticks tick_hz dur);
    poll_wait = timers.poll;
  }
