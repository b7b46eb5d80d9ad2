-- ===== src/Tests/Examples.antt =====
-- The programs of examples/ on concrete worlds.
use Prim.Native.String.{String}
use tenacious.Prelude.{
  ℕ, suc, ◌+◌, ◌-◌, ◌≤◌, Bool, false, refl, ◌≡◌, arith, List, [], ◌∷◌, ◌++◌, some, Result, ok, err,
  M, pure, Ref, IsCell,
}
use tenacious.Duration.{Duration}
use tenacious.Float.Whole.{whole, whole-IsIeee}
use tenacious.Clock.Virtual.{VirtualClock, VirtualWait, sync_clock, async_clock}
use tenacious.Engine.Error.{RetryError}
use tenacious.Engine.Sync.{Retry, Finished, run}
use tenacious.Engine.Sync.WithStats
use tenacious.Engine.Sync.WithStats.{RetryWithStats}
use tenacious.Engine.Async.{AsyncRetry, into_run, block_on}
use tenacious.Examples.Plain.{Answers}
use tenacious.Examples.Script.{scripted, entry, BeforeCall}
use tenacious.Examples.CustomOutcome.{Rollout, settled, await_rollout, await_rollout-settled}
use tenacious.Examples.SyncCancel.{ServiceError, cancel_retry, eager_retry}
use tenacious.Examples.SyncCancel.Calls.{calls_left}
use tenacious.Examples.SyncCancel.Cancelled.{cancel_retry-aborted, eager_retry-exhausted}
use tenacious.Examples.TestingWithVirtualClock.{budget, fetch_retry}
use tenacious.Examples.TestingWithVirtualClock.Schedule.{fetch_retry-schedule}
use tenacious.Examples.AsyncPolling.{Status, deploy_retry}
use tenacious.Examples.AsyncPolling.Ready
use tenacious.Examples.AsyncPolling.Ready.{deploy_retry-ready}
use tenacious.Examples.HooksAndStats.{Ping, unavailable, ping_retry, lines, ping_retry-lines}
use tenacious.Tests.Fixtures.{
  World, fresh, clock_cell, clock_cell-IsCell, calls_cell, calls_cell-IsCell, virtual-Completes,
}

-- The script of the first path in custom-outcome.rs.
abbrev live_path : List Rollout
live_path = Rollout.in_progress ∷ Rollout.in_progress ∷ Rollout.live 7 ∷ []

await_rollout-settled_example :
    Answers
      (BeforeCall calls_cell live_path (omega arith))
      (await_rollout whole
        (sync_clock clock_cell)
        clock_cell
        10
        (scripted calls_cell live_path (omega arith))
        fresh)
      (settled (entry calls_cell live_path (omega arith)) 9 1)
await_rollout-settled_example =
    await_rollout-settled whole (sync_clock clock_cell) clock_cell calls_cell live_path
      (omega arith) fresh calls_cell-IsCell (λ c w. refl) refl

-- The answer is the version, at the third attempt.
live : settled (entry calls_cell live_path (omega arith)) 9 1 ≡ (ok 7, 3)
live = refl

-- The other two paths of the example: a failure ends the polling at once, and a rollout that never
-- settles uses up the attempts.
abbrev failed_path : List Rollout
failed_path = Rollout.in_progress ∷ Rollout.failed "image pull error" ∷ []

failed :
    settled (entry calls_cell failed_path (omega arith)) 9 1
    ≡ (err (RetryError.aborted "image pull error"), 2)
failed = refl

abbrev stuck_path : List Rollout
stuck_path = Rollout.in_progress ∷ []

stuck :
    settled (entry calls_cell stuck_path (omega arith)) 9 1
    ≡ (err (RetryError.exhausted Rollout.in_progress), 10)
stuck = refl

-- A world with the flag and the counter of sync-cancel.rs.
record Service : Type 0 where
  pub flag : Bool
  pub counter : ℕ
  pub clock : VirtualClock

abbrev flag_cell : Ref Service Bool
flag_cell = record { get = λ w. w.flag; set = λ b w. record w { flag = b } }

abbrev counter_cell : Ref Service ℕ
counter_cell = record { get = λ w. w.counter; set = λ n w. record w { counter = n } }

abbrev service_clock : Ref Service VirtualClock
service_clock = record { get = λ w. w.clock; set = λ c w. record w { clock = c } }

flag_cell-IsCell : IsCell flag_cell
flag_cell-IsCell = record { get-set = λ a w. refl; set-set = λ a b w. refl }

counter_cell-IsCell : IsCell counter_cell
counter_cell-IsCell = record { get-set = λ a w. refl; set-set = λ a b w. refl }

abbrev service : Service
service = record { flag = false; counter = 0; clock = record { now = 0; waits = [] } }

service_waits :
    (delay : Duration) (w : Service)
    → (flag_cell.get ((sync_clock service_clock).wait delay w).1 ≡ flag_cell.get w)
      × (counter_cell.get ((sync_clock service_clock).wait delay w).1 ≡ counter_cell.get w)
unfolding sync_clock
service_waits delay w = (refl, refl)

service_now :
    (w : Service)
    → (flag_cell.get ((sync_clock service_clock).now w).1 ≡ flag_cell.get w)
      × (counter_cell.get ((sync_clock service_clock).now w).1 ≡ counter_cell.get w)
unfolding sync_clock
service_now w = (refl, refl)

-- The fourth attempt is the last.
cancel_retry-aborted_example :
    (self : Retry Service (Unit {0}) ServiceError (Result (Unit {0}) ServiceError)) × (cancel_retry
        whole
        (sync_clock service_clock)
        flag_cell
        counter_cell
      ≡ some self)
    × (g : Finished (Unit {0}) ServiceError (Result (Unit {0}) ServiceError)) × ((run 100 self
          service).0
        ≡ some g)
    × (g.0 ≡ err (RetryError.aborted ServiceError.cancelled))
    × (g.1.attempts ≡ suc (calls_left false 0))
cancel_retry-aborted_example =
    cancel_retry-aborted whole (sync_clock service_clock) flag_cell counter_cell flag_cell-IsCell
      counter_cell-IsCell (λ n w. refl) (λ b w. refl) service_now service_waits service
      (omega arith)

eager_retry-exhausted_example :
    (self : Retry Service (Unit {0}) ServiceError (Result (Unit {0}) ServiceError)) × (eager_retry
        whole
        (sync_clock service_clock)
        flag_cell
        counter_cell
      ≡ some self)
    × (g : Finished (Unit {0}) ServiceError (Result (Unit {0}) ServiceError)) × ((run 100 self
          service).0
        ≡ some g)
    × (g.0 ≡ err (RetryError.exhausted (err ServiceError.cancelled)))
    × (g.1.attempts ≡ 100)
eager_retry-exhausted_example =
    eager_retry-exhausted whole (sync_clock service_clock) flag_cell counter_cell flag_cell-IsCell
      counter_cell-IsCell (λ n w. refl) (λ b w. refl) service_now service_waits service
      (omega arith)

fetch_retry-schedule_example :
    (built : Retry World ℕ String (Result ℕ String)) × (fetch_retry whole
        (sync_clock clock_cell)
        (pure (err "down"))
        (sync_clock clock_cell)
      ≡ some built)
    × (g : Finished ℕ String (Result ℕ String)) × (w' : World) × (run 4 built fresh ≡ (some g, w'))
    × (g.0 ≡ err (RetryError.exhausted (err "down")))
    × (g.1.attempts ≡ 4)
    × (clock_cell.get w'
        ≡ record { now = 0 + budget; waits = [] ++ (100_000_000 ∷ 200_000_000 ∷ 100_000_000 ∷ []) })
fetch_retry-schedule_example =
    fetch_retry-schedule whole whole-IsIeee clock_cell clock_cell-IsCell "down"
      (sync_clock clock_cell) fresh (omega arith)

-- Two failures are left.
abbrev two_left : World
two_left = record fresh { calls = 2 }

keeps_calls :
    (delay : Duration) (w : World)
    → calls_cell.get ((sync_clock clock_cell).wait delay w).1 ≡ calls_cell.get w
unfolding sync_clock
keeps_calls delay w = refl

reads_calls : (w : World) → calls_cell.get ((async_clock clock_cell).now w).1 ≡ calls_cell.get w
unfolding async_clock
reads_calls w = refl

deploy_retry-ready_example :
    (self : AsyncRetry World String VirtualWait String String Status) × (deploy_retry calls_cell
        whole
        (async_clock clock_cell)
        (async_clock clock_cell)
      ≡ some self)
    × (g : Finished String String Status) × (w' : World) × ((polls : ℕ) × (fuel : ℕ) × ((p k : ℕ)
          → polls ≤ p
          → fuel ≤ k
          → block_on p k (into_run self) two_left ≡ (some g, w')))
    × (g.0 ≡ (Ready.outcome_of 2).0)
    × (g.1.attempts ≡ (Ready.outcome_of 2).1)
    × (calls_cell.get w' ≡ 2 - (Ready.outcome_of 2).1)
deploy_retry-ready_example =
    deploy_retry-ready calls_cell calls_cell-IsCell whole (async_clock clock_cell)
      (async_clock clock_cell) (sync_clock clock_cell).wait virtual-Completes reads_calls
      keeps_calls two_left

-- The line adds the number of the attempt to the count.
abbrev count_line : ℕ → String → M World (Unit {0})
count_line attempt error w = (tt, record w { calls = w.calls + attempt })

ping_lines :
    (self : RetryWithStats World (Unit {0}) String Ping) × (ping_retry count_line whole
        (sync_clock clock_cell)
        clock_cell
      ≡ some self)
    × (g : Finished (Unit {0}) String Ping) × (WithStats.call 3 self fresh
        ≡ (some g, (lines count_line clock_cell fresh).1))
    × (g.0 ≡ err (RetryError.exhausted (err unavailable)))
    × (g.1.attempts ≡ 3)
    × (g.1.total_wait ≡ 10_000_000)
ping_lines = ping_retry-lines count_line whole (sync_clock clock_cell) clock_cell fresh
