-- ===== src/Clock/Adapters/Embassy/Waits.antt =====
-- The waits of `EmbassyClock` in src/clock.rs, as its own readings show them.
use native.Mathlib.Nat.{div-mul-le_self, le-div_iff_mul-le}
use tenacious.Prelude.{ℕ, ◌+◌, ◌*◌, ◌/◌, ◌≤◌, ◌≡◌, arith}
use tenacious.Duration.{Duration}
use tenacious.Clock.Adapters.{Instants, Timers, IsTimer}
use tenacious.Clock.Adapters.Embassy.{
  EmbassyClock, to_embassy_ticks, to_embassy_ticks_bounds, u64_max, now, async_clock,
}
use tenacious.Engine.Async.Reaches.{Completes}

div_shift : (h d x y : ℕ) → 1 ≤ h → x + d * h ≤ y → x / h + d ≤ y / h
div_shift h d x y pos le =
    let floor = div-mul-le_self x h in (le-div_iff_mul-le (omega arith)).1 (omega arith)

module _ {World Instant Timer : Type 0} (instants : Instants World Instant ℕ)
    (timers : Timers World ℕ Timer) (Past : Instant → World → Type 0) (tick_hz : ℕ)
    (as_micros : ℕ → ℕ) where
  -- A wait on the Embassy clock shows in its readings. For a clock whose origin is in the past, where the runtime's timers do not complete
  -- early, its ticks are not of rate 0 and are converted to whole microseconds rounded down, and
  -- where the ticks of the wait fit a `u64`: between the call of `wait_async` and the completion of
  -- its future, the reading moves on by the whole microseconds of the wait at least.
  pub wait_async-covers :
      (self : EmbassyClock Instant) (dur : Duration) (w v : World)
      → IsTimer instants timers Past
      → Past self.origin w
      → 1 ≤ tick_hz
      → ((ticks : ℕ) → as_micros ticks ≡ ticks * 1_000_000 / tick_hz)
      → dur / 1000 * tick_hz ≤ 1_000_000 * u64_max
      → (let clock = async_clock instants timers tick_hz as_micros self in
          let wait = clock.wait_async dur w in Completes clock.poll_wait wait.0 wait.1 tt v)
      → (now instants timers tick_hz as_micros self w).0 + dur / 1000 * 1000
        ≤ (now instants timers tick_hz as_micros self v).0
  unfolding now async_clock
  wait_async-covers self dur w v timer past pos micros fits ends =
      let ticks = to_embassy_ticks tick_hz dur in
      let passed = timer.waits self.origin ticks w v past ends in
      let bounds = to_embassy_ticks_bounds tick_hz dur in
      let covered =
        div_shift tick_hz (dur / 1000) ((instants.elapsed self.origin w).0 * 1_000_000)
          ((instants.elapsed self.origin v).0 * 1_000_000) pos (omega arith) in
      rw (micros, micros) (omega arith)
