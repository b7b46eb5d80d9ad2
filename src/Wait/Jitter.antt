-- ===== src/Wait/Jitter.antt =====
-- src/wait/jitter.rs: the random generator and the four kinds of jitter.
pub mod Bounds
pub mod Seeds
pub mod Mixing
pub mod Distinct
use Prim.Native.Nat.{bit_xor}
use tenacious.Prelude.{
  ℕ, ◌+◌, ◌-◌, ◌*◌, ◌/◌, ◌%◌, ◌^◌, min, Option, none, some, ◌==◌, if◌then◌else◌,
}
use tenacious.Prelude.{M, pure, ◌>>=◌, ◌>>◌, Ref}
use tenacious.Duration.{Duration, unwrap_or, saturating_add, saturating_mul, saturating_sub}
use tenacious.State.{RetryState}
use tenacious.Wait.Base.{Wait}
use tenacious.Wait.Strategies.{fixed, fixed_wait}
use tenacious.Wait.Composition.{WaitCapped}

abbrev pub default_jitter_seed : ℕ
default_jitter_seed = 0x5A5A_5A5A_5A5A_5A5A

abbrev pub gamma : ℕ
gamma = 0x9e37_79b9_7f4a_7c15

abbrev pub u64_max : ℕ
u64_max = 0xffff_ffff_ffff_ffff

-- The generator's atomic, or its `Cell`.
abbrev pub SplitMix64 : Type 0 → Type 0
SplitMix64 World = Ref World ℕ

-- The three mixing lines of `next_u64`.
pub mix : ℕ → ℕ
mix state =
    let a = (bit_xor state (state / 2 ^ 30) * 0xbf58_476d_1ce4_e5b9) % 2 ^ 64 in
    let b = (bit_xor a (a / 2 ^ 27) * 0x94d0_49bb_1331_11eb) % 2 ^ 64 in bit_xor b (b / 2 ^ 31)

module _ {World : Type 0} where
  -- `SplitMix64::new`, with the cell to be filled.
  new_rng : SplitMix64 World → ℕ → M World (Unit {0})
  new_rng rng seed w = (tt, rng.set seed w)

  pub advance : SplitMix64 World → M World ℕ
  advance rng w = let next = (rng.get w + gamma) % 2 ^ 64 in (next, rng.set next w)

  pub next_u64 : SplitMix64 World → M World ℕ
  next_u64 rng = do z ← advance rng; pure (mix z)

  pub next_bounded : SplitMix64 World → ℕ → M World ℕ
  next_bounded rng max = do z ← next_u64 rng; pure (if max == u64_max then z else z % (max + 1))

  seeded_rng : SplitMix64 World → ℕ → ℕ → M World (Unit {0})
  unfolding new_rng
  seeded_rng rng seed nonce = new_rng rng (bit_xor seed nonce)

-- The generator of `derive_nonce` lives for one draw.
derive_nonce : ℕ → ℕ
derive_nonce seed = mix ((seed + gamma) % 2 ^ 64)

pub data JitterKind : Type 0 where
  additive : Duration → JitterKind
  full equal decorrelated : JitterKind

pub record Jittered (World : Type 0) : Type 0 where
  pub inner : Wait World
  pub kind : JitterKind
  pub seed : ℕ
  pub rng : SplitMix64 World

module _ {World : Type 0} where
  pub random_duration_in : Duration → Duration → SplitMix64 World → M World Duration
  random_duration_in lower upper rng =
      let range_nanos = saturating_sub upper lower in
      let draw : M World Duration = next_bounded rng (min range_nanos u64_max) >>= λ random.
      pure (saturating_add lower random) in
      if range_nanos == 0 then pure lower else draw

  pub random_jitter_duration : Duration → SplitMix64 World → M World Duration
  random_jitter_duration max_jitter rng = random_duration_in 0 max_jitter rng

  -- The match on the kind.
  pub apply_jitter : JitterKind → SplitMix64 World → RetryState → Duration → M World Duration
  apply_jitter (JitterKind.additive max_jitter) rng state base = do
    jitter ← random_jitter_duration max_jitter rng
    pure (saturating_add base jitter)
  apply_jitter JitterKind.full rng state base = random_jitter_duration base rng
  apply_jitter JitterKind.equal rng state base = do
    let half = base / 2
    jitter ← random_jitter_duration half rng
    pure (saturating_add half jitter)
  apply_jitter JitterKind.decorrelated rng state base =
      let upper = saturating_mul (unwrap_or state.previous_delay base) 3 in
      random_duration_in base upper rng

  pub jittered_wait : Jittered World → Wait World
  unfolding apply_jitter
  jittered_wait self state = do base ← self.inner state; apply_jitter self.kind self.rng state base

  -- `Jittered::new`, with the generator's cell and the fresh nonce.
  pub new : Wait World → JitterKind → SplitMix64 World → ℕ → M World (Jittered World)
  unfolding seeded_rng
  new inner kind rng nonce = do
    seeded_rng rng default_jitter_seed nonce
    pure (record { inner = inner; kind = kind; seed = default_jitter_seed; rng = rng })

  pub with_seed : ℕ → Jittered World → M World (Jittered World)
  unfolding seeded_rng derive_nonce
  with_seed seed self = do
    seeded_rng self.rng seed (derive_nonce seed)
    pure (record self { seed = seed })

  unfoldable with_nonce : ℕ → Jittered World → M World (Jittered World)
  unfolding seeded_rng
  with_nonce nonce self = do seeded_rng self.rng self.seed nonce; pure self

  -- `clone`, with a cell of its own and the fresh nonce.
  unfoldable clone : Jittered World → SplitMix64 World → ℕ → M World (Jittered World)
  unfolding seeded_rng
  clone self rng nonce = do seeded_rng rng self.seed nonce; pure (record self { rng = rng })

  -- `next_jitter_nonce`: the global counter, and the nanoseconds of the system time (0 without
  -- `std`). The counter is a `usize` of 64 bits.
  pub next_jitter_nonce : Ref World ℕ → ℕ → M World ℕ
  next_jitter_nonce counter now_nanos w =
      let n = counter.get w in (bit_xor n (now_nanos % 2 ^ 64), counter.set ((n + 1) % 2 ^ 64) w)

  -- `Jittered::additive`, `full` and `equal`, which the trait's `jitter`, `full_jitter` and
  -- `equal_jitter` call.
  unfoldable jitter : Wait World → Duration → SplitMix64 World → ℕ → M World (Jittered World)
  unfolding new
  jitter self max_jitter rng nonce = new self (JitterKind.additive max_jitter) rng nonce

  unfoldable full_jitter : Wait World → SplitMix64 World → ℕ → M World (Jittered World)
  unfolding new
  full_jitter self rng nonce = new self JitterKind.full rng nonce

  unfoldable equal_jitter : Wait World → SplitMix64 World → ℕ → M World (Jittered World)
  unfolding new
  equal_jitter self rng nonce = new self JitterKind.equal rng nonce

  unfoldable decorrelated_jitter : Duration → SplitMix64 World → ℕ → M World (Jittered World)
  unfolding new fixed
  decorrelated_jitter base rng nonce =
      new (fixed_wait (fixed base)) JitterKind.decorrelated rng nonce

  -- `WaitCapped::jitter`: the cap stays the last operation.
  pub capped_jitter :
      WaitCapped World → Duration → SplitMix64 World → ℕ → M World (WaitCapped World)
  unfolding new
  capped_jitter self max_jitter rng nonce = do
    jittered ← new self.inner (JitterKind.additive max_jitter) rng nonce
    pure (record { inner = jittered_wait jittered; max = self.max })
