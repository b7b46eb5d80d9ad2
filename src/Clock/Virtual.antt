-- ===== src/Clock/Virtual.antt =====
-- src/clock.rs: the virtual clock. Its cells are one cell of the world, behind shared references.
pub mod Laws
use tenacious.Prelude.{
  Bool, true, false, List, [], ◌∷◌, ◌++◌, M, pure, ◌>>=◌, ◌>>◌, skip, Ref, Poll, ready,
}
use tenacious.Prelude.{if◌then◌else◌}
use tenacious.Duration.{Duration, saturating_add}
use tenacious.Clock.{SyncClock, AsyncClock}

-- `now` is virtual time, `waits` every wait requested so far, in order.
pub record VirtualClock : Type 0 where
  pub now : Duration
  pub waits : List Duration

unfoldable pub new : VirtualClock
new = record { now = 0; waits = [] }

-- Future of `wait_async`: the clock it borrows is the cell that `poll` is given.
pub record VirtualWait : Type 0 where
  pub dur : Duration
  pub advanced : Bool

module _ {World : Type 0} (cell : Ref World VirtualClock) where
  unfoldable pub now : M World Duration
  now w = ((cell.get w).now, w)

  unfoldable waits : M World (List Duration)
  waits w = ((cell.get w).waits, w)

  advance : Duration → M World (Unit {0})
  advance dur w =
      let self = cell.get w in (tt, cell.set (record self { now = saturating_add self.now dur }) w)

  push_wait : Duration → M World (Unit {0})
  push_wait dur w =
      let self = cell.get w in (tt, cell.set (record self { waits = self.waits ++ (dur ∷ []) }) w)

  unfoldable pub record_wait : Duration → M World (Unit {0})
  unfolding advance push_wait
  record_wait dur = do advance dur; push_wait dur

  -- `impl SyncClock for VirtualClock`
  unfoldable pub sync_clock : SyncClock World
  unfolding now record_wait
  sync_clock = record { now = now; wait = record_wait }

  -- `VirtualWait::poll`: time moves on the first poll.
  pub poll_wait : VirtualWait → M World (Poll (Unit {0}) × VirtualWait)
  unfolding record_wait
  poll_wait self = do
    if self.advanced then skip else record_wait self.dur
    pure (ready tt, record self { advanced = true })

  -- `impl AsyncClock for &VirtualClock`
  unfoldable pub async_clock : AsyncClock World VirtualWait
  unfolding now poll_wait
  async_clock = record {
    now = now;
    wait_async = λ dur. pure (record { dur = dur; advanced = false });
    poll_wait = poll_wait;
  }
