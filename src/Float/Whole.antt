-- ===== src/Float/Whole.antt =====
-- A `Float` of whole numbers under `2 ^ 1024` and an infinity, which has the behaviour that
-- `IsIeee` lists: src/wait can be run on it.
use tenacious.Prelude.{
  ℕ, ◌+◌, ◌-◌, ◌*◌, ◌^◌, ◌≤◌, ◌<◌, Bool, true, false, Option, none, some, ◌≡◌, refl, arith, leb,
  ◌==◌, if◌then◌else◌, pow-add, le→leb, lt→not_leb, Bool-cases, inl, inr, ==→eq,
}
use tenacious.Duration
use tenacious.Float.{Float, IsIeee}

abbrev limit : ℕ
limit = 2 ^ 1024

abbrev times : Option ℕ → Option ℕ → Option ℕ
times (some a) (some b) = if leb limit (a * b) then none else some (a * b)
times (some a) none = none
times none b = none

abbrev finite : Option ℕ → Bool
finite none = false
finite (some _) = true

abbrev at_most : Option ℕ → Option ℕ → Bool
at_most (some a) (some b) = leb a b
at_most _ none = true
at_most none (some _) = false

abbrev rounded : ℕ → ℕ
rounded n = if n == Duration.max then Duration.max + 1 else n

abbrev whole_of : Option ℕ → ℕ
whole_of none = 2 ^ 128 - 1
whole_of (some n) = n

abbrev pub whole : Float
whole = record {
  F = Option ℕ;
  one = some 1;
  two = some 2;
  infinity = none;
  mul = times;
  is_finite = finite;
  le = at_most;
  ge = λ a b. at_most b a;
  max = λ a b. if at_most a b then b else a;
  of_ℕ = λ n. some (rounded n);
  to_ℕ = whole_of;
}

abbrev Scaled : Option ℕ → ℕ → ℕ → Type 0
Scaled x m e = x ≡ some (m * 2 ^ e)

product : (m e d : ℕ) → m * 2 ^ e * (1 * 2 ^ d) ≡ m * 2 ^ (e + d)
product m e d = rw (pow-add e d) (ground arith)

unscaled : (n : ℕ) → n * 2 ^ 0 ≡ n
unscaled n = omega arith

rounded-small : (n : ℕ) → n < 2 ^ 53 → rounded n ≡ n
rounded-small n h = elim (Bool-cases (n == Duration.max)) [
  | inl e ↦ let same = ==→eq _ _ e in absurd (omega arith)
  | inr e ↦ rw e refl
]

Scaled-mul :
    (x y : Option ℕ) (m e d : ℕ)
    → Scaled x m e
    → Scaled y 1 d
    → m * 2 ^ (e + d) < limit
    → Scaled (times x y) m (e + d)
Scaled-mul x y m e d p q h = rw (p, q, product m e d, lt→not_leb limit (m * 2 ^ (e + d)) h)

mul_overflow :
    (x y : Option ℕ) (m e d : ℕ)
    → Scaled x m e
    → Scaled y 1 d
    → limit ≤ m * 2 ^ (e + d)
    → times x y ≡ none
mul_overflow x y m e d p q h = rw (p, q, product m e d, le→leb limit (m * 2 ^ (e + d)) h)

pub whole-IsIeee : IsIeee whole
whole-IsIeee = record {
  Scaled = Scaled;
  scaled_one = refl;
  scaled_two = refl;
  scaled_of_ℕ = λ n h. rw (rounded-small n h, unscaled n);
  scaled_mul = Scaled-mul;
  mul_overflow = mul_overflow;
  mul_infinity = λ x m e p h. rw p;
  infinity_mul = refl;
  is_finite_scaled = λ x m e p. rw p;
  is_finite_infinity = refl;
  le_one = λ x m e p. rw p;
  max_one = λ x h. rw h;
  max_above = λ x finite h. rw h;
  ge_max = λ x m e p. rw p;
  ge_max_infinity = refl;
  to_ℕ_scaled = λ x m e p h. rw p;
}
