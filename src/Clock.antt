-- ===== src/Clock.antt =====
-- src/clock.rs: the clock traits, the clocks. What the runtimes' own timers do is not part of
-- the repository.
pub mod Contract
pub mod System
pub mod Virtual
pub mod Adapters
use tenacious.Prelude.{M, Poll}
use tenacious.Duration.{Duration}

-- `Clock` with its sibling `SyncClock`: a reading, and a blocking wait.
pub record SyncClock (World : Type 0) : Type 0 where
  pub now : M World Duration
  pub wait : Duration → M World (Unit {0})

-- `Clock` with its sibling `AsyncClock`: a reading, and a wait that is a future. `poll_wait` is the
-- `poll` of the future's type `Wait`, which changes the future in place.
pub record AsyncClock (World Wait : Type 0) : Type 0 where
  pub now : M World Duration
  pub wait_async : Duration → M World Wait
  pub poll_wait : Wait → M World (Poll (Unit {0}) × Wait)

-- A borrowed clock is the clock behind the reference.
unfoldable borrowed : {World : Type 0} → SyncClock World → SyncClock World
borrowed self = record { now = self.now; wait = λ dur. self.wait dur }

unfoldable borrowed_async : {World Wait : Type 0} → AsyncClock World Wait → AsyncClock World Wait
borrowed_async self = record {
  now = self.now;
  wait_async = λ dur. self.wait_async dur;
  poll_wait = self.poll_wait;
}
