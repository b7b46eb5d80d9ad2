-- ===== src/Wait/Jitter/Mixing.antt =====
-- The mixing lines of `next_u64` in src/wait/jitter.rs, and how to undo them.
use tenacious.Prelude.{
  ℕ, ◌+◌, ◌*◌, ◌/◌, ◌%◌, ◌^◌, ◌≤◌, ◌<◌, two_pow_mono, ◌≡◌, sym, ap, ◌∙◌, arith, bit_xor-lt,
}
use tenacious.Prelude.{shift_xor, unshift_xor, unshift_xor-shift_xor, shift_xor-unshift_xor}
use native.Mathlib.Nat.{div-eq_of_lt, div-le_self}
use tenacious.Wait.Jitter.{mix}

-- The inverses of the two odd factors, modulo `2 ^ 64`.
abbrev first_inverse : ℕ
first_inverse = 0x96de_1b17_3f11_9089

abbrev second_inverse : ℕ
second_inverse = 0x3196_42b2_d24d_8ec3

abbrev pub unmix : ℕ → ℕ
unmix y =
    let b = unshift_xor 31 y in
    let a = unshift_xor 27 ((b * second_inverse) % 2 ^ 64) in
    unshift_xor 30 ((a * first_inverse) % 2 ^ 64)

first_back :
    (x : ℕ) → x < 2 ^ 64 → ((x * 0xbf58_476d_1ce4_e5b9) % 2 ^ 64 * first_inverse) % 2 ^ 64 ≡ x
first_back x h = omega arith

second_back :
    (x : ℕ) → x < 2 ^ 64 → ((x * 0x94d0_49bb_1331_11eb) % 2 ^ 64 * second_inverse) % 2 ^ 64 ≡ x
second_back x h = omega arith

-- A word has no bits above the 64th.
word_shift : (z k : ℕ) → z < 2 ^ 64 → 64 ≤ k → z / 2 ^ k ≡ 0
word_shift z k h le = div-eq_of_lt (omega (arith, two_pow_mono 64 k le))

shift_xor-lt : (k z : ℕ) → z < 2 ^ 64 → shift_xor k z < 2 ^ 64
shift_xor-lt k z h = bit_xor-lt 64 z (z / 2 ^ k) h (omega (arith, div-le_self z (2 ^ k)))

unshift_xor-lt : (k y : ℕ) → y < 2 ^ 64 → unshift_xor k y < 2 ^ 64
unshift_xor-lt k y h =
    bit_xor-lt 64 (shift_xor k y) (y / 2 ^ (k + k)) (shift_xor-lt k y h)
      (omega (arith, div-le_self y (2 ^ (k + k))))

unshift-shift : (k z : ℕ) → z < 2 ^ 64 → 64 ≤ k + (k + k) → unshift_xor k (shift_xor k z) ≡ z
unshift-shift k z h le = unshift_xor-shift_xor k z (word_shift z _ h le)

shift-unshift : (k y : ℕ) → y < 2 ^ 64 → 64 ≤ k + (k + k) → shift_xor k (unshift_xor k y) ≡ y
shift-unshift k y h le = shift_xor-unshift_xor k y (word_shift y _ h le)

unmix-mix : (z : ℕ) → z < 2 ^ 64 → unmix (mix z) ≡ z
unfolding mix
unmix-mix z h =
    let a = (shift_xor 30 z * 0xbf58_476d_1ce4_e5b9) % 2 ^ 64 in
    let b = (shift_xor 27 a * 0x94d0_49bb_1331_11eb) % 2 ^ 64 in
    let at_a : (b * second_inverse) % 2 ^ 64 ≡ shift_xor 27 a =
      second_back (shift_xor 27 a) (shift_xor-lt 27 a (omega arith)) in
    let at_z : (a * first_inverse) % 2 ^ 64 ≡ shift_xor 30 z =
      first_back (shift_xor 30 z) (shift_xor-lt 30 z h) in
    rw
      (
        unshift-shift 31 b (omega arith) (omega arith),
        at_a,
        unshift-shift 27 a (omega arith) (omega arith),
        at_z,
      )
      (unshift-shift 30 z h (omega arith))

first_forth :
    (x : ℕ) → x < 2 ^ 64 → ((x * first_inverse) % 2 ^ 64 * 0xbf58_476d_1ce4_e5b9) % 2 ^ 64 ≡ x
first_forth x h = omega arith

second_forth :
    (x : ℕ) → x < 2 ^ 64 → ((x * second_inverse) % 2 ^ 64 * 0x94d0_49bb_1331_11eb) % 2 ^ 64 ≡ x
second_forth x h = omega arith

mix-unmix : (y : ℕ) → y < 2 ^ 64 → mix (unmix y) ≡ y
unfolding mix
mix-unmix y h =
    let b = unshift_xor 31 y in
    let c = (b * second_inverse) % 2 ^ 64 in
    let a = unshift_xor 27 c in
    let d = (a * first_inverse) % 2 ^ 64 in
    rw
      (
        shift-unshift 30 d (omega arith) (omega arith),
        first_forth a (unshift_xor-lt 27 c (omega arith)),
        shift-unshift 27 c (omega arith) (omega arith),
        second_forth b (unshift_xor-lt 31 y h),
      )
      (shift-unshift 31 y h (omega arith))

-- The mixing is a permutation of the 64-bit words: `unmix`, which runs its lines backwards with the
-- inverse factors, takes each word back to the one it came from, and the mixing takes it forth.
pub mix_roundtrip : (z : ℕ) → z < 2 ^ 64 → (unmix (mix z) ≡ z) × (mix (unmix z) ≡ z)
mix_roundtrip z h = (unmix-mix z h, mix-unmix z h)

pub mix-injective : (x y : ℕ) → x < 2 ^ 64 → y < 2 ^ 64 → mix x ≡ mix y → x ≡ y
mix-injective x y p q e = sym (unmix-mix x p) ∙ ap unmix e ∙ unmix-mix y q
