-- ===== src/Wait/Jitter/Bounds.antt =====
-- The range of the jittered waits of src/wait/jitter.rs, whatever the generator draws.
use tenacious.Prelude.{ℕ, ◌+◌, ◌-◌, ◌*◌, ◌/◌, ◌^◌, ◌≤◌, ◌<◌, min, Option, ◌⊎◌, arith, bit_xor-lt}
use tenacious.Duration
use tenacious.Duration.{Duration, saturating_mul, unwrap_or}
use tenacious.State.{RetryState}
use tenacious.Wait.Composition.{WaitCapped, capped_wait}
use tenacious.Wait.Jitter.{
  u64_max, default_jitter_seed, SplitMix64, mix, next_u64, next_bounded, random_duration_in,
  random_jitter_duration, apply_jitter, JitterKind, Jittered, jittered_wait, capped_jitter,
}

mix-lt : (state : ℕ) → mix state < 2 ^ 64
unfolding mix
mix-lt state = bit_xor-lt 64 _ _ (omega arith) (omega arith)

-- The range of a jittered delay `d` over the inner strategy's `base`.
abbrev pub InRange : JitterKind → Option Duration → Duration → Duration → Type 0
InRange (JitterKind.additive max_jitter) previous base d = (base ≤ d) × (d ≤ base + max_jitter)
InRange JitterKind.full previous base d = d ≤ base
InRange JitterKind.equal previous base d = (base / 2 ≤ d) × (d ≤ base)
InRange JitterKind.decorrelated previous base d =
    (base ≤ d) × ((d ≤ base) ⊎ (d ≤ unwrap_or previous base * 3))

module _ {World : Type 0} (rng : SplitMix64 World) (w : World) where
  -- A draw lies in `0 ..= max`, for a `u64` `max`, whatever the state of the generator.
  next_bounded-le : (max : ℕ) → max ≤ u64_max → (next_bounded rng max w).0 ≤ max
  unfolding next_bounded next_u64
  next_bounded-le max h = grind (arith, mix-lt)

  random_duration_in_bounds :
      (lower upper : Duration)
      → lower ≤ Duration.max
      → let d = (random_duration_in lower upper rng w).0 in
        (lower ≤ d) × (d ≤ Duration.max) × ((d ≤ lower) ⊎ (d ≤ upper))
  unfolding random_duration_in
  random_duration_in_bounds lower upper small =
      ground (arith, next_bounded-le (min (upper - lower) u64_max) (omega arith))

  apply_jitter-InRange :
      (kind : JitterKind) (state : RetryState) (base : Duration)
      → base ≤ Duration.max
      → let d = (apply_jitter kind rng state base w).0 in
        InRange kind state.previous_delay base d × (d ≤ Duration.max)
  unfolding apply_jitter random_jitter_duration
  apply_jitter-InRange (JitterKind.additive max_jitter) state base small =
      omega (arith, random_duration_in_bounds 0 max_jitter (omega arith))
  apply_jitter-InRange JitterKind.full state base small =
      omega (arith, random_duration_in_bounds 0 base (omega arith))
  apply_jitter-InRange JitterKind.equal state base small =
      omega (arith, random_duration_in_bounds 0 (base / 2) (omega arith))
  apply_jitter-InRange JitterKind.decorrelated state base small =
      let upper = saturating_mul (unwrap_or state.previous_delay base) 3 in
      omega (arith, random_duration_in_bounds base upper small)

module _ {World : Type 0} where
  -- If the inner delay is a `Duration`, the jittered one is one too, and lies in the range that
  -- its kind promises: `base ..= base + max_jitter` for additive jitter, `0 ..= base` for full
  -- jitter, `base / 2 ..= base` for equal jitter, and from `base` up to three times the previous
  -- delay (or to `base`, if that is more) for decorrelated jitter.
  pub jittered_wait-InRange :
      (self : Jittered World) (state : RetryState) (w : World)
      → (self.inner state w).0 ≤ Duration.max
      → let d = (jittered_wait self state w).0 in
        InRange self.kind state.previous_delay (self.inner state w).0 d × (d ≤ Duration.max)
  unfolding jittered_wait
  jittered_wait-InRange self state w small =
      apply_jitter-InRange self.rng (self.inner state w).1 self.kind state (self.inner state w).0
        small

  -- Jitter added to a capped strategy does not pass the cap: if the inner delay is a `Duration`,
  -- the delay with jitter lies between the capped delay without jitter and the cap, whatever the
  -- seed, the nonce and the worlds in which the jitter is added and asked.
  pub capped_jitter_bounds :
      (self : WaitCapped World) (max_jitter : Duration) (rng : SplitMix64 World) (nonce : ℕ)
      (made at : World) (state : RetryState)
      → (self.inner state at).0 ≤ Duration.max
      → let d = (capped_wait (capped_jitter self max_jitter rng nonce made).0 state at).0 in
        ((capped_wait self state at).0 ≤ d) × (d ≤ self.max)
  unfolding capped_jitter capped_wait
  capped_jitter_bounds self max_jitter rng nonce made at state small =
      let jittered : Jittered World = record {
        inner = self.inner;
        kind = JitterKind.additive max_jitter;
        seed = default_jitter_seed;
        rng = rng;
      } in
      omega (arith, jittered_wait-InRange jittered state at small)
