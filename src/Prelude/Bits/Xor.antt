-- ===== src/Prelude/Bits/Xor.antt =====
-- The laws of the exclusive or: it undoes itself, and shifts pass through it.
use Prim.Native.Nat.{
  ℕ, zero, suc, ◌+◌, ◌-◌, ◌*◌, ◌/◌, ◌%◌, ◌^◌, ◌≤◌, bit_xor, digits, differ, bit_xor-bitwise,
}
use mathlib.Core.Path.{◌≡◌, refl, sym, ap, ◌∙◌}
use native.Mathlib.Nat.{pow-suc, div-div-eq-div-mul, div-one}
use tenacious.Prelude.Order.{pow-add}
use native.Mathlib.Omega.{arith}

differ-eq : (x y : ℕ) → differ x y ≡ (x - y) + (y - x)
differ-eq zero y = omega arith
differ-eq (suc x) zero = omega arith
differ-eq (suc x) (suc y) = omega (arith, differ-eq x y)

abbrev xor_digits : ℕ → ℕ → ℕ → ℕ
xor_digits n a b = digits (λ b. b) differ n a b

-- More steps than digits change nothing.
xor_digits_fuel : (n m a b : ℕ) → a ≤ n → a ≤ m → xor_digits n a b ≡ xor_digits m a b
xor_digits_fuel zero zero a b p q = refl
xor_digits_fuel zero (suc m) zero b p q = refl
xor_digits_fuel zero (suc m) (suc a) b p q = absurd (omega arith)
xor_digits_fuel (suc n) zero zero b p q = refl
xor_digits_fuel (suc n) zero (suc a) b p q = absurd (omega arith)
xor_digits_fuel (suc n) (suc m) zero b p q = refl
xor_digits_fuel (suc n) (suc m) (suc a) b p q =
    omega (arith, xor_digits_fuel n m (suc a / 2) (b / 2) (omega arith) (omega arith))

pub zero-bit_xor : (b : ℕ) → bit_xor 0 b ≡ b
zero-bit_xor b = bit_xor-bitwise 0 b

-- The lowest digit, and the others.
bit_xor_step :
    (a b : ℕ) → bit_xor a b ≡ bit_xor (a / 2) (b / 2) * 2 + ((a % 2 - b % 2) + (b % 2 - a % 2))
bit_xor_step zero b = omega (arith, zero-bit_xor b, zero-bit_xor (b / 2))
bit_xor_step (suc a) b = omega (
  arith,
  bit_xor-bitwise (suc a) b,
  bit_xor-bitwise (suc a / 2) (b / 2),
  xor_digits_fuel a (suc a / 2) (suc a / 2) (b / 2) (omega arith) (omega arith),
  differ-eq (suc a % 2) (b % 2),
)

bit_xor_half : (a b : ℕ) → bit_xor a b / 2 ≡ bit_xor (a / 2) (b / 2)
bit_xor_half a b = omega (arith, bit_xor_step a b)

bit_xor_low : (a b : ℕ) → bit_xor a b % 2 ≡ (a % 2 - b % 2) + (b % 2 - a % 2)
bit_xor_low a b = omega (arith, bit_xor_step a b)

pub bit_xor_self : (a : ℕ) → bit_xor a a ≡ 0
bit_xor_self a = fuelled a a (omega arith)
  where
    fuelled : (n a : ℕ) → a ≤ n → bit_xor a a ≡ 0
    fuelled zero zero h = refl
    fuelled zero (suc a) h = absurd (omega arith)
    fuelled (suc n) a h = omega (arith, bit_xor_step a a, fuelled n (a / 2) (omega arith))

pub bit_xor-zero : (a : ℕ) → bit_xor a 0 ≡ a
bit_xor-zero a = fuelled a a (omega arith)
  where
    fuelled : (n a : ℕ) → a ≤ n → bit_xor a 0 ≡ a
    fuelled zero zero h = refl
    fuelled zero (suc a) h = absurd (omega arith)
    fuelled (suc n) a h = omega (arith, bit_xor_step a 0, fuelled n (a / 2) (omega arith))

pub bit_xor_assoc : (a b c : ℕ) → bit_xor (bit_xor a b) c ≡ bit_xor a (bit_xor b c)
bit_xor_assoc a b c = fuelled (a + b + c) a b c (omega arith) (omega arith) (omega arith)
  where
    fuelled :
        (n a b c : ℕ) → a ≤ n → b ≤ n → c ≤ n → bit_xor (bit_xor a b) c ≡ bit_xor a (bit_xor b c)
    fuelled zero zero zero zero p q r = refl
    fuelled zero (suc a) b c p q r = absurd (omega arith)
    fuelled zero zero (suc b) c p q r = absurd (omega arith)
    fuelled zero zero zero (suc c) p q r = absurd (omega arith)
    fuelled (suc n) a b c p q r =
        let ih = fuelled n (a / 2) (b / 2) (c / 2) (omega arith) (omega arith) (omega arith) in
        let left : bit_xor (bit_xor a b / 2) (c / 2) ≡ bit_xor (bit_xor (a / 2) (b / 2)) (c / 2) =
          ap (λ t. bit_xor t (c / 2)) (bit_xor_half a b) in
        let right : bit_xor (a / 2) (bit_xor b c / 2) ≡ bit_xor (a / 2) (bit_xor (b / 2) (c / 2)) =
          ap (bit_xor (a / 2)) (bit_xor_half b c) in
        omega (
          arith,
          bit_xor_step (bit_xor a b) c,
          bit_xor_step a (bit_xor b c),
          bit_xor_low a b,
          bit_xor_low b c,
        )

pub div-div_pow : (k j a : ℕ) → a / 2 ^ k / 2 ^ j ≡ a / 2 ^ (k + j)
div-div_pow k j a = div-div-eq-div-mul a (2 ^ k) (2 ^ j) ∙ ap (λ t. a / t) (sym (pow-add k j))

half_first : (k a : ℕ) → a / 2 ^ suc k ≡ a / 2 / 2 ^ k
half_first k a = ap (λ t. a / t) (omega (arith, pow-suc 2 k)) ∙ sym (div-div-eq-div-mul a 2 (2 ^ k))

-- A shift passes through.
pub bit_xor-div : (k a b : ℕ) → bit_xor a b / 2 ^ k ≡ bit_xor (a / 2 ^ k) (b / 2 ^ k)
bit_xor-div zero a b = rw (div-one, div-one, div-one)
bit_xor-div (suc k) a b =
    rw (half_first k (bit_xor a b), half_first k a, half_first k b, bit_xor_half)
      (bit_xor-div k (a / 2) (b / 2))

pub bit_xor_left-injective : (a b c : ℕ) → bit_xor a b ≡ bit_xor a c → b ≡ c
bit_xor_left-injective a b c e = sym (undo b) ∙ ap (bit_xor a) e ∙ undo c
  where
    undo : (x : ℕ) → bit_xor a (bit_xor a x) ≡ x
    undo x = rw (← bit_xor_assoc a a x, bit_xor_self) (zero-bit_xor x)

-- Twice the same cancels.
pub bit_xor-cancel : (a b : ℕ) → bit_xor (bit_xor a b) b ≡ a
bit_xor-cancel a b = rw (bit_xor_assoc, bit_xor_self, bit_xor-zero)

bit_xor_chain : (a b c : ℕ) → bit_xor (bit_xor (bit_xor a b) (bit_xor b c)) (bit_xor c 0) ≡ a
bit_xor_chain a b c =
    rw (bit_xor-zero, ← bit_xor_assoc (bit_xor a b) b c, bit_xor-cancel a b) (bit_xor-cancel a c)

-- A word with its own upper bits mixed into it, and how to get it back.
abbrev pub shift_xor : ℕ → ℕ → ℕ
shift_xor k z = bit_xor z (z / 2 ^ k)

abbrev pub unshift_xor : ℕ → ℕ → ℕ
unshift_xor k y = bit_xor (bit_xor y (y / 2 ^ k)) (y / 2 ^ (k + k))

pub unshift_xor-shift_xor :
    (k z : ℕ) → z / 2 ^ (k + (k + k)) ≡ 0 → unshift_xor k (shift_xor k z) ≡ z
unshift_xor-shift_xor k z gone =
    rw (bit_xor-div k z, bit_xor-div (k + k) z, div-div_pow k k z, div-div_pow k (k + k) z, gone)
      (bit_xor_chain z (z / 2 ^ k) (z / 2 ^ (k + k)))

pub shift_xor-unshift_xor :
    (k y : ℕ) → y / 2 ^ (k + (k + k)) ≡ 0 → shift_xor k (unshift_xor k y) ≡ y
shift_xor-unshift_xor k y gone =
    let thrice : y / 2 ^ (k + k) / 2 ^ k ≡ 0 =
      div-div_pow (k + k) k y ∙ ap (λ t. y / 2 ^ t) (omega arith) ∙ gone in
    rw
      (
        bit_xor-div k (bit_xor y (y / 2 ^ k)),
        bit_xor-div k y,
        thrice,
        bit_xor-zero,
        div-div_pow k k y,
        bit_xor_assoc y (y / 2 ^ k) (y / 2 ^ (k + k)),
      )
      (bit_xor-cancel y (bit_xor (y / 2 ^ k) (y / 2 ^ (k + k))))
