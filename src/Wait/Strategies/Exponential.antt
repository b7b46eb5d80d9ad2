-- ===== src/Wait/Strategies/Exponential.antt =====
-- The exponential wait of src/wait/strategies.rs against its formula.
mod Power
use mathlib.Core.Path.{subst}
use native.Mathlib.Nat.{zero-add}
use tenacious.Prelude.{
  ℕ, zero, suc, ◌+◌, ◌-◌, ◌*◌, ◌/◌, ◌%◌, ◌^◌, ◌≤◌, ◌<◌, ◌≡◌, ◌≢◌, inl, inr, min, refl, true, false,
  ◌==◌, leb, arith, Bool-cases, leb→le, not_leb→lt, ==→eq, not_==→ne, if◌then◌else◌, two_pow_mono,
  ap, sym, ◌∙◌, ◌⊎◌,
}
use tenacious.Duration
use tenacious.Duration.{Duration, nanos_per_sec}
use tenacious.State.{RetryState}
use tenacious.Float.{Float, IsIeee}
use tenacious.Wait.Math.{clamp_exponential_base, saturating_duration_mul_f64, pow_nonnegative_f64}
use tenacious.Wait.Strategies.{WaitExponential, with_base, exponential, exponential_wait}
use Power.{IsPower, pow-IsPower, power_one}

le_multiple : (a b : ℕ) → a ≢ 0 → b ≤ a * b
le_multiple zero b h = absurd (h refl)
le_multiple (suc a) b h = omega arith

module _ (f : Float) (ieee : IsIeee f) where
  open ieee use {Scaled}

  -- `Duration::new` puts the two parts of a number of nanoseconds together again.
  recombine :
      (n : ℕ)
      → n ≤ Duration.max
      → Duration.new ((n / nanos_per_sec) % 2 ^ 64) ((n % nanos_per_sec) % 2 ^ 32) ≡ n
  recombine n h = omega arith

  module _ (dur : Duration) (x : f.F) (n : ℕ) (some_left : (dur == 0) ≡ false) where
    mul_infinite :
        f.mul (f.of_ℕ dur) x ≡ f.infinity
        → Duration.max ≤ dur * 2 ^ n
        → saturating_duration_mul_f64 f dur x ≡ min (dur * 2 ^ n) Duration.max
    unfolding saturating_duration_mul_f64
    mul_infinite e large = rw (some_left, e, ieee.ge_max_infinity) (omega arith)

    mul_finite :
        Scaled (f.mul (f.of_ℕ dur) x) dur n
        → saturating_duration_mul_f64 f dur x ≡ min (dur * 2 ^ n) Duration.max
    unfolding saturating_duration_mul_f64
    mul_finite s = elim (Bool-cases (leb (Duration.max + 1) (dur * 2 ^ n))) [
      | inl large ↦
          let le = leb→le _ _ large in rw (some_left, ieee.ge_max _ _ _ s, large) (omega arith)
      | inr small ↦
          let lt = not_leb→lt _ _ small in
          rw (some_left, ieee.ge_max _ _ _ s, small, ieee.to_ℕ_scaled _ _ _ s (omega arith))
            (omega (arith, recombine (dur * 2 ^ n) (omega arith)))
    ]

  mul_power :
      (dur : Duration) (x : f.F) (n : ℕ)
      → dur < 2 ^ 53
      → IsPower f ieee x n
      → saturating_duration_mul_f64 f dur x ≡ min (dur * 2 ^ n) Duration.max
  unfolding saturating_duration_mul_f64
  mul_power dur x n small p = elim (Bool-cases (dur == 0)) [
    | inl done ↦ let e : dur ≡ 0 = ==→eq _ _ done in rw done (rw e (omega arith))
    | inr left ↦
        let pos : dur ≢ 0 = not_==→ne _ _ left in
        elim p [
          | inl (s, lt) ↦ elim (Bool-cases (leb (2 ^ 1024) (dur * 2 ^ (0 + n)))) [
            | inl large ↦
                let le : 2 ^ 1024 ≤ dur * 2 ^ n =
                  subst (λ k. 2 ^ 1024 ≤ dur * 2 ^ k) (zero-add n) (leb→le _ _ large) in
                mul_infinite dur x n left
                  (ieee.mul_overflow _ x dur 0 n (ieee.scaled_of_ℕ dur small) s (leb→le _ _ large))
                  (omega arith)
            | inr fits ↦ mul_finite dur x n left (
                subst (Scaled _ dur) (zero-add n) (
                  ieee.scaled_mul _ x dur 0 n (ieee.scaled_of_ℕ dur small) s (not_leb→lt _ _ fits)))
          ]
          | inr (e, large) ↦
              mul_infinite dur x n left
                (rw e (ieee.mul_infinity _ dur 0 (ieee.scaled_of_ℕ dur small) (omega arith)))
                (omega (arith, two_pow_mono 1024 n large, le_multiple dur (2 ^ n) pos))
        ]
  ]

  power_wait :
      {World : Type 0} (self : WaitExponential f) (d : ℕ) (state : RetryState) (w : World)
      → self.initial < 2 ^ 53
      → Scaled self.base 1 d
      → d < 1024
      → exponential_wait f self state w
        ≡ (min (self.initial * 2 ^ (d * (state.attempt - 1))) Duration.max, w)
  unfolding exponential_wait
  power_wait self d state w small s bound =
      let n = state.attempt - 1 in
      rw (mul_power self.initial _ (d * n) small (pow-IsPower f ieee self.base d n s bound))

  -- The wait after attempt `n` of the default exponential strategy is exactly
  -- `initial * 2 ^ (n - 1)`, or `Duration::MAX` where that is less, for every attempt number, if
  -- `initial` is under `2 ^ 53` nanoseconds (104 days) and the floating-point type behaves as
  -- binary64 does on scaled powers of two.
  pub exponential_wait-eq :
      {World : Type 0} (initial : Duration) (state : RetryState) (w : World)
      → initial < 2 ^ 53
      → exponential_wait f (exponential f initial) state w
        ≡ (min (initial * 2 ^ (state.attempt - 1)) Duration.max, w)
  unfolding exponential
  exponential_wait-eq initial state w small =
      let once : 1 * (state.attempt - 1) ≡ state.attempt - 1 = omega arith in
      subst
        (λ n.
          exponential_wait f (exponential f initial) state w
          ≡ (min (initial * 2 ^ n) Duration.max, w))
        once (power_wait (exponential f initial) 1 state w small ieee.scaled_two (omega arith))

  -- What `base` makes of its argument is `2 ^ d`: it is that power, or `d` is 0 and it is not finite or
  -- at most 1.0.
  abbrev pub Clamped : f.F → ℕ → Type 0
  Clamped base d =
      (Scaled base 1 d × (d < 1024))
      ⊎ ((d ≡ 0) × ((f.is_finite base ≡ false) ⊎ (f.le base f.one ≡ true)))

  clamp-Scaled :
      (base : f.F) (d : ℕ)
      → Clamped base d
      → Scaled (clamp_exponential_base f base) 1 d × (d < 1024)
  unfolding clamp_exponential_base
  clamp-Scaled base d (inl (s, small)) = elim (Bool-cases (leb (1 * 2 ^ d) 1)) [
    | inl low ↦
        let flat = power_one d (leb→le _ _ low) in
        rw (ieee.is_finite_scaled base 1 d s, ieee.max_one base (ieee.le_one base 1 d s ∙ low))
          (subst (Scaled f.one 1) (sym flat) ieee.scaled_one, small)
    | inr high ↦
        rw
          (
            ieee.is_finite_scaled base 1 d s,
            ieee.max_above base (ieee.is_finite_scaled base 1 d s) (ieee.le_one base 1 d s ∙ high),
          )
          (s, small)
  ]
  clamp-Scaled base d (inr (flat, inl odd)) =
      rw odd (subst (Scaled f.one 1) (sym flat) ieee.scaled_one, omega arith)
  clamp-Scaled base d (inr (flat, inr low)) = elim (Bool-cases (f.is_finite base)) [
    | inl finite ↦
        rw (finite, ieee.max_one base low)
          (subst (Scaled f.one 1) (sym flat) ieee.scaled_one, omega arith)
    | inr odd ↦ rw odd (subst (Scaled f.one 1) (sym flat) ieee.scaled_one, omega arith)
  ]

  -- Changing the base: with the base `2 ^ d` the wait after attempt `n` is exactly
  -- `initial * 2 ^ (d * (n - 1))`, or `Duration::MAX` where that is less, and with a base that is not
  -- finite or at most 1.0 it is `initial` after every attempt, which is the formula with `d` 0. This
  -- is under the conditions of the default base, and `2 ^ d` is finite.
  pub with_base-eq :
      {World : Type 0} (initial : Duration) (base : f.F) (d : ℕ) (state : RetryState) (w : World)
      → initial < 2 ^ 53
      → Clamped base d
      → exponential_wait f (with_base f base (exponential f initial)) state w
        ≡ (min (initial * 2 ^ (d * (state.attempt - 1))) Duration.max, w)
  unfolding exponential with_base
  with_base-eq initial base d state w small clamped =
      let (s, bound) = clamp-Scaled base d clamped in
      power_wait (with_base f base (exponential f initial)) d state w small s bound
