-- ===== src/Tests/Strategies.antt =====
-- The wait strategies at concrete arguments.
use tenacious.Prelude.{inl}
use tenacious.Prelude.{◌*◌, ◌^◌, ◌-◌, ◌≤◌, min, ◌≡◌, some, arith}
use tenacious.Duration
use tenacious.Duration.{saturating_add}
use tenacious.State.{RetryState}
use tenacious.Float.Whole.{whole, whole-IsIeee}
use tenacious.Wait.Strategies.{fixed, fixed_wait, with_base, exponential, exponential_wait}
use tenacious.Wait.Strategies.Exponential.{exponential_wait-eq, with_base-eq}
use tenacious.Wait.Composition.{cap_at, capped_wait}
use tenacious.Wait.Jitter.{JitterKind, Jittered, jittered_wait, capped_jitter}
use tenacious.Wait.Jitter.Bounds.{InRange, jittered_wait-InRange, capped_jitter_bounds}
use tenacious.Tests.Fixtures.{World, fresh, calls_cell}

abbrev third : RetryState
third = record { attempt = 3; elapsed = 50; previous_delay = some 20 }

exponential_wait-eq_example :
    exponential_wait whole (exponential whole 100) third fresh
    ≡ (min (100 * 2 ^ (3 - 1)) Duration.max, fresh)
exponential_wait-eq_example = exponential_wait-eq whole whole-IsIeee 100 third fresh (omega arith)

-- 8 is 2 * 2 * 2.
eight : whole-IsIeee.Scaled (some 8) 1 3
eight =
    let two = whole-IsIeee.scaled_two in
    let four = whole-IsIeee.scaled_mul (some 2) (some 2) 1 1 1 two two (omega arith) in
    whole-IsIeee.scaled_mul (some 4) (some 2) 1 2 1 four two (omega arith)

with_base-eq_example :
    exponential_wait whole (with_base whole (some 8) (exponential whole 100)) third fresh
    ≡ (min (100 * 2 ^ (3 * (3 - 1))) Duration.max, fresh)
with_base-eq_example =
    with_base-eq whole whole-IsIeee 100 (some 8) 3 third fresh (omega arith)
      (inl (eight, omega arith))

abbrev jittered : Jittered World
jittered = record {
  inner = fixed_wait (fixed 30);
  kind = JitterKind.decorrelated;
  seed = 1;
  rng = calls_cell;
}

jittered_wait-InRange_example :
    InRange JitterKind.decorrelated (some 20) 30 (jittered_wait jittered third fresh).0
    × ((jittered_wait jittered third fresh).0 ≤ Duration.max)
unfolding fixed fixed_wait
jittered_wait-InRange_example = jittered_wait-InRange jittered third fresh (omega arith)

capped_jitter_bounds_example :
    let d =
      (capped_wait
        (capped_jitter (cap_at (fixed_wait (fixed 30)) 40) 20 calls_cell 5 fresh).0
        third
        fresh).0 in
    ((capped_wait (cap_at (fixed_wait (fixed 30)) 40) third fresh).0 ≤ d) × (d ≤ 40)
unfolding fixed fixed_wait cap_at
capped_jitter_bounds_example =
    capped_jitter_bounds (cap_at (fixed_wait (fixed 30)) 40) 20 calls_cell 5 fresh fresh third
      (omega arith)
