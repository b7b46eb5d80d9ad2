-- ===== src/Wait/Strategies/Exponential/Power.antt =====
-- Powers of 2.0 by the squaring loop of src/wait/math.rs.
use mathlib.Core.Logic.{dite, dif_pos, dif_neg}
use mathlib.Core.Path.{subst}
use mathlib.Core.WellFounded.{Acc}
use native.Mathlib.Decide.{ℕ_discrete}
use native.Mathlib.Nat.{ℕ_set}
use tenacious.Prelude.{
  zero, suc, ℕ, ◌+◌, ◌*◌, ◌/◌, ◌%◌, ◌^◌, ◌≤◌, ◌<◌, ◌≡◌, ◌≢◌, ◌⊎◌, inl, inr, refl, ◌==◌, arith,
  Bool-cases, two_pow_mono, lt_wf, leb, leb→le, not_leb→lt, ==→eq, not_==→ne, ap,
}
use tenacious.Float.{Float, IsIeee}
use tenacious.Wait.Math.{half-lt, square, pow_body, pow_loop, pow_nonnegative_f64}

-- One round of the loop halves the exponent and squares the factor.
odd_halves : (a b n : ℕ) → n % 2 ≡ 1 → a + b + (b + b) * (n / 2) ≡ a + b * n
odd_halves a b n h =
    let e : n ≡ 2 * (n / 2) + 1 = omega arith in omega (arith, ap (λ (t : ℕ). b * t) e)

even_halves : (a b n : ℕ) → n % 2 ≢ 1 → a + (b + b) * (n / 2) ≡ a + b * n
even_halves a b n h =
    let e : n ≡ 2 * (n / 2) = omega arith in omega (arith, ap (λ (t : ℕ). b * t) e)

odd_le : (a b n : ℕ) {k : ℕ} → n % 2 ≡ 1 → k ≤ a + b → k ≤ a + b * n
odd_le a b n h le = omega (arith, odd_halves a b n h)

pub power_one : (d : ℕ) → 1 * 2 ^ d ≤ 1 → d ≡ 0
power_one zero h = refl
power_one (suc d) h = let pos = two_pow_mono 0 d (omega arith) in absurd (omega arith)

module _ (f : Float) (ieee : IsIeee f) where
  open ieee use {Scaled}

  -- `x` is `2.0 ^ n`, which overflows from 1024 on.
  abbrev pub IsPower : f.F → ℕ → Type 0
  IsPower x n = (Scaled x 1 n × (n < 1024)) ⊎ ((x ≡ f.infinity) × (1024 ≤ n))

  small_power : (n : ℕ) → n < 1024 → 1 * 2 ^ n < 2 ^ 1024
  small_power n h = let le : 2 ^ n ≤ 2 ^ 1023 = two_pow_mono n 1023 (omega arith) in omega arith

  large_power : (n : ℕ) → 1024 ≤ n → 2 ^ 1024 ≤ 1 * 2 ^ n
  large_power n h = let le : 2 ^ 1024 ≤ 2 ^ n = two_pow_mono 1024 n h in omega arith

  mul-IsPower : (x y : f.F) (a b : ℕ) → Scaled x 1 a → IsPower y b → IsPower (f.mul x y) (a + b)
  mul-IsPower x y a b p (inl (q, lt)) = elim (Bool-cases (leb 1024 (a + b))) [
    | inl large ↦
        let le = leb→le _ _ large in
        inr (ieee.mul_overflow x y 1 a b p q (large_power (a + b) le), le)
    | inr small ↦
        let le = not_leb→lt _ _ small in
        inl (ieee.scaled_mul x y 1 a b p q (small_power (a + b) le), le)
  ]
  mul-IsPower x y a b p (inr (q, le)) =
      inr (rw q (ieee.mul_infinity x 1 a p (omega arith)), omega arith)

  square-IsPower : (x : f.F) (b : ℕ) → IsPower x b → IsPower (square f x) (b + b)
  square-IsPower x b (inl (q, lt)) = elim (mul-IsPower x x b b q (inl (q, lt))) [
    | inl (s, small) ↦ rw (ieee.is_finite_scaled _ _ _ s) (inl (s, small))
    | inr (s, large) ↦ rw (s, ieee.is_finite_infinity) (inr (refl, large))
  ]
  square-IsPower x b (inr (q, le)) =
      rw (q, ieee.infinity_mul, ieee.is_finite_infinity) (inr (refl, omega arith))

  module _ (b n : ℕ) (go_on : n / 2 ≢ 0 → f.F → f.F)
      (ih : (more : n / 2 ≢ 0) (z : f.F) (c : ℕ)
        → Scaled z 1 c
        → c < 1024
        → IsPower (go_on more z) (c + (b + b) * (n / 2))) where
    rest-IsPower :
        (z : f.F) (c : ℕ)
        → Scaled z 1 c
        → c < 1024
        → IsPower
            (dite (ℕ_discrete (n / 2) 0) (λ _. z) (λ more. go_on more z))
            (c + (b + b) * (n / 2))
    rest-IsPower z c s lt = elim (ℕ_discrete (n / 2) 0) [
      | yes last ↦
          rw (dif_pos (ℕ_discrete (n / 2) 0) (ℕ_set _ _) last)
            (inl (rw last (subst (Scaled z 1) (omega arith) s), rw last (omega arith)))
      | no more ↦ rw (dif_neg (ℕ_discrete (n / 2) 0) more) (ih more z c s lt)
    ]

    -- The rest of the loop gives the power that is left to do.
    pow_body-IsPower :
        (x y : f.F) (a : ℕ)
        → Scaled x 1 a
        → a < 1024
        → IsPower y b
        → 0 < n
        → IsPower (pow_body f x y n go_on) (a + b * n)
    unfolding pow_body
    pow_body-IsPower x y a p lt q pos = elim (Bool-cases (n % 2 == 1)) [
      | inl odd ↦ elim (mul-IsPower x y a b p q) [
        | inl (s, small) ↦
            rw (odd, ieee.is_finite_scaled _ _ _ s)
              (subst (IsPower _) (odd_halves a b n (==→eq _ _ odd))
                (rest-IsPower (f.mul x y) (a + b) s small))
        | inr (s, large) ↦
            rw (odd, s, ieee.is_finite_infinity) (inr (refl, odd_le a b n (==→eq _ _ odd) large))
      ]
      | inr even ↦
          rw even
            (subst (IsPower _) (even_halves a b n (not_==→ne _ _ even)) (rest-IsPower x a p lt))
    ]

  pow_loop-IsPower :
      (x y : f.F) (a b n : ℕ) (w : Acc ◌<◌ n)
      → Scaled x 1 a
      → a < 1024
      → IsPower y b
      → 0 < n
      → IsPower (pow_loop f x y n w) (a + b * n)
  unfolding pow_loop
  pow_loop-IsPower x y a b n (Acc.intro _ smaller) p lt q pos =
      pow_body-IsPower b n
        (λ more z. pow_loop f z (square f y) (n / 2) (smaller (n / 2) (half-lt n more)))
        (λ more z c s c_lt.
          pow_loop-IsPower z (square f y) c (b + b) (n / 2) (smaller (n / 2) (half-lt n more)) s
            c_lt (square-IsPower y b q) (omega arith))
        x y a p lt q pos

  -- `pow_nonnegative_f64` raises a power of two to the exponent, or to infinity from 1024 on.
  pub pow-IsPower :
      (x : f.F) (d n : ℕ) → Scaled x 1 d → d < 1024 → IsPower (pow_nonnegative_f64 f x n) (d * n)
  unfolding pow_nonnegative_f64
  pow-IsPower x d n s small = elim (Bool-cases (n == 0)) [
    | inl done ↦
        let e : n ≡ 0 = ==→eq _ _ done in
        rw done
          (inl (rw e (subst (Scaled f.one 1) (omega arith) ieee.scaled_one), rw e (omega arith)))
    | inr left ↦
        let pos : n ≢ 0 = not_==→ne _ _ left in
        elim (Bool-cases (leb (1 * 2 ^ d) 1)) [
          | inl low ↦
              let flat = power_one d (leb→le _ _ low) in
              rw (left, ieee.le_one x 1 d s, low)
                (inl (
                  rw flat (subst (Scaled f.one 1) (omega arith) ieee.scaled_one),
                  rw flat (omega arith),
                ))
          | inr high ↦
              rw (left, ieee.le_one x 1 d s, high)
                (subst (IsPower _) (omega arith) (
                  pow_loop-IsPower f.one x 0 d n (lt_wf.apply n) ieee.scaled_one (omega arith)
                    (inl (s, small)) (omega arith)))
        ]
  ]
