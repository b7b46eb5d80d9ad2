-- ===== src/Prelude/Bits.antt =====
-- The exclusive or of two words is a word.
mod Xor
pub use Xor.{
  shift_xor, unshift_xor, unshift_xor-shift_xor, shift_xor-unshift_xor, bit_xor-cancel,
  bit_xor_left-injective,
}
use Prim.Native.Nat.{ℕ, zero, suc, ◌/◌, ◌%◌, ◌^◌, ◌<◌, bit_xor, digits, differ, bit_xor-bitwise}
use native.Mathlib.Nat.{pow-suc}
use native.Mathlib.Omega.{arith}

differ_bits : (a b : ℕ) → a < 2 → b < 2 → differ a b < 2
differ_bits zero b p q = q
differ_bits (suc a) zero p q = p
differ_bits (suc zero) (suc zero) p q = omega arith
differ_bits (suc zero) (suc (suc b)) p q = absurd (omega arith)
differ_bits (suc (suc a)) (suc b) p q = absurd (omega arith)

digits-lt : (k n a b : ℕ) → a < 2 ^ k → b < 2 ^ k → digits (λ b. b) differ n a b < 2 ^ k
digits-lt k zero a b p q = q
digits-lt k (suc n) zero b p q = q
digits-lt zero (suc n) (suc a) b p q = absurd (omega arith)
digits-lt (suc k) (suc n) (suc a) b p q =
    let e = pow-suc 2 k in
    let rest = digits-lt k n (suc a / 2) (b / 2) (omega arith) (omega arith) in
    omega (arith, differ_bits (suc a % 2) (b % 2) (omega arith) (omega arith))

pub bit_xor-lt : (k a b : ℕ) → a < 2 ^ k → b < 2 ^ k → bit_xor a b < 2 ^ k
bit_xor-lt k a b p q = rw (bit_xor-bitwise a b) (digits-lt k a a b p q)
