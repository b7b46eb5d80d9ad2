-- ===== src/Clock/Adapters.antt =====
-- src/clock.rs: the adapters for Tokio, Embassy, futures-timer and Gloo. The runtimes' instants and
-- timers are parameters.
pub mod Tokio
pub mod Embassy
pub mod FuturesTimer
pub mod Gloo
use tenacious.Prelude.{M, Poll, ℕ, ◌+◌, ◌≤◌}
use tenacious.Engine.Async.Reaches.{Completes}

-- A runtime's `Instant::now` and `Instant::elapsed`. `Length` is its type of durations.
pub record Instants (World Instant Length : Type 0) : Type 0 where
  pub instant_now : M World Instant
  pub elapsed : Instant → M World Length

-- A runtime's constructor of timers, and their `poll`.
pub record Timers (World Length Timer : Type 0) : Type 0 where
  pub after : Length → M World Timer
  pub poll : Timer → M World (Poll (Unit {0}) × Timer)

-- However often it is polled, a timer does not complete before its length has passed since it was
-- made, on the clock of any instant that was in the past then.
pub record IsTimer {World Instant Timer : Type 0} (instants : Instants World Instant ℕ)
    (timers : Timers World ℕ Timer) (Past : Instant → World → Type 0) : Type 0 where
  pub waits :
      (origin : Instant) (length : ℕ) (w v : World)
      → Past origin w
      → Completes timers.poll (timers.after length w).0 (timers.after length w).1 tt v
      → (instants.elapsed origin w).0 + length ≤ (instants.elapsed origin v).0
