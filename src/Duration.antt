-- ===== src/Duration.antt =====
-- The language's `core::time::Duration`, which src/compat.rs passes on: a whole number of
-- nanoseconds, at most `u64::MAX` seconds and 999_999_999 nanoseconds.
use tenacious.Prelude.{ℕ, ◌+◌, ◌-◌, ◌*◌, ◌^◌, ◌≡◌, min, Option, none, some, arith, leb}
use tenacious.Prelude.{if◌then◌else◌}

-- A time in nanoseconds.
abbrev pub Duration : Type 0
Duration = ℕ

abbrev pub nanos_per_sec : ℕ
nanos_per_sec = 1_000_000_000

-- `Duration::MAX`.
abbrev pub max : Duration
max = 18_446_744_073_709_551_615_999_999_999

abbrev pub saturating_add : Duration → Duration → Duration
saturating_add a b = min (a + b) max

-- `-` stops at 0, as `saturating_sub` does.
abbrev pub saturating_sub : Duration → Duration → Duration
saturating_sub a b = a - b

abbrev pub checked_mul : Duration → ℕ → Option Duration
checked_mul a k = if leb (a * k) max then some (a * k) else none

abbrev pub saturating_mul : Duration → ℕ → Duration
saturating_mul a k = min (a * k) max

max-eq : max ≡ (2 ^ 64 - 1) * nanos_per_sec + 999_999_999
max-eq = omega arith

-- `Duration::new`, for fewer nanoseconds than a second.
abbrev pub new : ℕ → ℕ → Duration
new secs nanos = secs * nanos_per_sec + nanos

-- `Option::unwrap_or`
abbrev pub unwrap_or : Option Duration → Duration → Duration
unwrap_or none d = d
unwrap_or (some x) d = x
