-- ===== src/Wait/Math.antt =====
-- src/wait/math.rs: saturating products, and powers by squaring.
use mathlib.Core.Logic.{dite}
use mathlib.Core.WellFounded.{Acc}
use native.Mathlib.Decide.{ℕ_discrete}
use tenacious.Prelude.{ℕ, ◌/◌, ◌%◌, ◌^◌, ◌<◌, ◌≢◌, Bool, not, ◌&&◌, arith, ◌==◌}
use tenacious.Prelude.{if◌then◌else◌, lt_wf}
use tenacious.Duration
use tenacious.Duration.{Duration, checked_mul, unwrap_or, nanos_per_sec}
use tenacious.Float.{Float}

unfoldable pub saturating_duration_mul : Duration → ℕ → Duration
saturating_duration_mul dur mul = unwrap_or (checked_mul dur mul) Duration.max

pub half-lt : (n : ℕ) → n / 2 ≢ 0 → n / 2 < n
half-lt n more = omega arith

module _ (f : Float) where
  -- `MIN_EXPONENTIAL_BASE` is 1.0.
  unfoldable pub clamp_exponential_base : f.F → f.F
  clamp_exponential_base base = if not (f.is_finite base) then f.one else f.max base f.one

  -- The casts to `u64` and `u32` wrap.
  unfoldable pub saturating_duration_mul_f64 : Duration → f.F → Duration
  saturating_duration_mul_f64 dur mul =
      let nanos = f.mul (f.of_ℕ dur) mul in
      let total_nanos = f.to_ℕ nanos in
      let product =
        Duration.new ((total_nanos / nanos_per_sec) % 2 ^ 64)
          ((total_nanos % nanos_per_sec) % 2 ^ 32) in
      if dur == 0 then 0 else (if f.ge nanos (f.of_ℕ Duration.max) then Duration.max else product)

  abbrev pub square : f.F → f.F
  square factor =
      let squared = f.mul factor factor in if not (f.is_finite squared) then f.infinity else squared

  -- `result *= factor`, where the lowest bit of `remaining` is set.
  abbrev pub times_if : Bool → f.F → f.F → f.F
  times_if bit result factor = if bit then f.mul result factor else result

  -- The body of the loop. `go_on` is the rest of the loop, with the new `result`, where halving
  -- leaves a bit of `remaining`.
  unfoldable pub pow_body : f.F → f.F → (remaining : ℕ) → (remaining / 2 ≢ 0 → f.F → f.F) → f.F
  pow_body result factor remaining go_on =
      let bit = remaining % 2 == 1 in
      let product = times_if bit result factor in
      let rest = dite (ℕ_discrete (remaining / 2) 0) (λ _. product) (λ more. go_on more product) in
      if bit && not (f.is_finite product) then f.infinity else rest

  unfoldable pub pow_loop : f.F → f.F → (remaining : ℕ) → Acc ◌<◌ remaining → f.F
  unfolding pow_body
  pow_loop result factor remaining (Acc.intro _ smaller) =
      pow_body result factor remaining λ more product.
        pow_loop product (square factor) (remaining / 2)
          (smaller (remaining / 2) (half-lt remaining more))

  unfoldable pub pow_nonnegative_f64 : f.F → ℕ → f.F
  unfolding pow_loop
  pow_nonnegative_f64 base exponent =
      if exponent == 0
      then f.one
      else (if f.le base f.one then f.one else pow_loop f.one base exponent (lt_wf.apply exponent))
