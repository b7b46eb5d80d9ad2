-- ===== src/Float.antt =====
-- What src/wait asks of `f64`. There are no floating-point numbers here: the type and its
-- operations are a parameter, and `IsIeee` lists the documented behaviour that the proofs use.
pub mod Whole
use tenacious.Prelude.{ℕ, ◌+◌, ◌*◌, ◌^◌, ◌≤◌, ◌<◌, Bool, true, false, ◌≡◌, leb}
use tenacious.Duration

pub record Float : Type 1 where
  pub F : Type 0
  pub one : F  -- 1.0
  pub two : F  -- 2.0
  pub infinity : F
  pub mul : F → F → F
  pub is_finite : F → Bool
  pub le : F → F → Bool
  pub ge : F → F → Bool
  pub max : F → F → F
  pub of_ℕ : ℕ → F  -- `as f64`, from `u128`
  pub to_ℕ : F → ℕ  -- `as u128`, truncating and saturating

-- Binary64 where it is exact: on `m * 2 ^ e` with a small `m`. Multiplying by a power of two only
-- moves the exponent, unless the product passes the largest finite value. `Duration::MAX`, which
-- is `2 ^ 64 * 10 ^ 9 - 1` nanoseconds, converts to `2 ^ 64 * 10 ^ 9`.
pub record IsIeee (f : Float) : Type 1 where
  pub Scaled : f.F → ℕ → ℕ → Type 0
  pub scaled_one : Scaled f.one 1 0
  pub scaled_two : Scaled f.two 1 1
  pub scaled_of_ℕ : (n : ℕ) → n < 2 ^ 53 → Scaled (f.of_ℕ n) n 0
  pub scaled_mul :
      (x y : f.F) (m e d : ℕ)
      → Scaled x m e
      → Scaled y 1 d
      → m * 2 ^ (e + d) < 2 ^ 1024
      → Scaled (f.mul x y) m (e + d)
  pub mul_overflow :
      (x y : f.F) (m e d : ℕ)
      → Scaled x m e
      → Scaled y 1 d
      → 2 ^ 1024 ≤ m * 2 ^ (e + d)
      → f.mul x y ≡ f.infinity
  pub mul_infinity : (x : f.F) (m e : ℕ) → Scaled x m e → 0 < m → f.mul x f.infinity ≡ f.infinity
  pub infinity_mul : f.mul f.infinity f.infinity ≡ f.infinity
  pub is_finite_scaled : (x : f.F) (m e : ℕ) → Scaled x m e → f.is_finite x ≡ true
  pub is_finite_infinity : f.is_finite f.infinity ≡ false
  pub le_one : (x : f.F) (m e : ℕ) → Scaled x m e → f.le x f.one ≡ leb (m * 2 ^ e) 1
  pub max_one : (x : f.F) → f.le x f.one ≡ true → f.max x f.one ≡ f.one
  pub max_above : (x : f.F) → f.is_finite x ≡ true → f.le x f.one ≡ false → f.max x f.one ≡ x
  pub ge_max :
      (x : f.F) (m e : ℕ)
      → Scaled x m e
      → f.ge x (f.of_ℕ Duration.max) ≡ leb (Duration.max + 1) (m * 2 ^ e)
  pub ge_max_infinity : f.ge f.infinity (f.of_ℕ Duration.max) ≡ true
  pub to_ℕ_scaled : (x : f.F) (m e : ℕ) → Scaled x m e → m * 2 ^ e < 2 ^ 128 → f.to_ℕ x ≡ m * 2 ^ e
