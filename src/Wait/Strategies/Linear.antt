-- ===== src/Wait/Strategies/Linear.antt =====
-- The linear wait of src/wait/strategies.rs against its formula.
use tenacious.Prelude.{◌+◌, ◌-◌, ◌*◌, ◌≡◌, min, arith}
use tenacious.Duration
use tenacious.State.{RetryState}
use tenacious.Wait.Strategies.{WaitLinear, linear_wait}

module _ {World : Type 0} where
  -- The wait after attempt `n` is `initial + (n - 1) * increment`, or `Duration::MAX` where that is
  -- less, in every world, and asking for it changes nothing.
  linear_wait-eq :
      (self : WaitLinear) (state : RetryState) (w : World)
      → linear_wait self state w
        ≡ (min (self.initial + self.increment * (state.attempt - 1)) Duration.max, w)
  unfolding linear_wait
  linear_wait-eq self state w = ground arith
