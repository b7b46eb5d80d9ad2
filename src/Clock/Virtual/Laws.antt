-- ===== src/Clock/Virtual/Laws.antt =====
-- What polling and waiting do to the virtual clock of src/clock.rs.
use tenacious.Prelude.{arith, ℕ, zero, suc, [], ◌∷◌, ◌++◌, ◌≡◌, refl, Ref, IsCell, true}
use tenacious.Duration.{Duration, saturating_add}
use tenacious.Clock.Contract.{IsCoherent}
use tenacious.Clock.Virtual.{
  now, VirtualClock, VirtualWait, record_wait, poll_wait, async_clock, sync_clock,
}

module _ {World : Type 0} (cell : Ref World VirtualClock) (lawful : IsCell cell) where
  -- A wait on a virtual clock in a lawful cell moves time by exactly its length, up to
  -- `Duration::MAX`, and is recorded after the earlier waits.
  pub record_wait-get :
      (dur : Duration) (w : World)
      → cell.get (record_wait cell dur w).1 ≡ record {
        now = saturating_add (cell.get w).now dur;
        waits = (cell.get w).waits ++ (dur ∷ []);
      }
  unfolding record_wait
  record_wait-get dur w = rw (lawful.get-set, lawful.get-set)

module _ {World : Type 0} (cell : Ref World VirtualClock) where
  -- `k` polls in a row.
  polls : ℕ → VirtualWait → World → VirtualWait × World
  unfolding poll_wait
  polls zero wait w = (wait, w)
  polls (suc k) wait w = let (r, w') = poll_wait cell wait w in polls k r.1 w'

  polls_advanced :
      (k : ℕ) (dur : Duration) (w : World)
      → polls k (record { dur = dur; advanced = true }) w
        ≡ (record { dur = dur; advanced = true }, w)
  unfolding polls poll_wait
  polls_advanced zero dur w = refl
  polls_advanced (suc k) dur w = polls_advanced k dur w

  -- However often it is polled, once at least, the future of `wait_async` does to the world what the
  -- blocking wait does; before the first poll it does nothing.
  polls-wait_async :
      (k : ℕ) (dur : Duration) (w : World)
      → (((async_clock cell).wait_async dur w).1 ≡ w)
        × ((polls (suc k) ((async_clock cell).wait_async dur w).0 w).1
            ≡ ((sync_clock cell).wait dur w).1)
  unfolding polls async_clock sync_clock
  polls-wait_async k dur w = (refl, rw (polls_advanced k dur _))

-- A virtual clock in a lawful cell keeps the contract of a clock, in every world.
pub sync_clock-IsCoherent :
    {World : Type 0} (cell : Ref World VirtualClock)
    → IsCell cell
    → IsCoherent (sync_clock cell) (λ _. Unit {0})
unfolding sync_clock now
sync_clock-IsCoherent cell lawful = record {
  now_mono = λ w. omega arith;
  now_ready = λ w _. tt;
  wait_ready = λ dur w _. tt;
  wait_covers = λ dur w _. rw (record_wait-get cell lawful) (omega arith);
}
