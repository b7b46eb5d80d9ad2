-- ===== src/Wait/Jitter/Distinct.antt =====
-- That the generator of src/wait/jitter.rs does not repeat a number.
use Prim.Native.Nat.{bit_xor}
use mathlib.Core.Logic.Or
use mathlib.Core.HLevel.{⊥_prop}
use mathlib.Core.List.{Mem, mem-cons, not-mem-nil, Nodup, Pairwise}
use tenacious.Prelude.{
  refl, List, [], ◌∷◌, ◌≡◌, ℕ, zero, suc, ◌+◌, ◌*◌, ◌%◌, ◌^◌, ◌≤◌, ◌<◌, ◌≢◌, sym, ap, ◌∙◌, arith, M,
  Ref, IsCell, Apart, bit_xor-lt, bit_xor-cancel, bit_xor_left-injective, ◌>>=◌,
}
use tenacious.Wait.{Wait}
use tenacious.Wait.Jitter.{
  SplitMix64, JitterKind, gamma, mix, advance, next_u64, default_jitter_seed, next_jitter_nonce,
  new,
}
use tenacious.Wait.Jitter.Mixing.{mix-injective}
use tenacious.Wait.Jitter.Seeds.{stream}

-- Where the state stands after `i` more steps, its draw does not come in the stream before that.
absent :
    (n s z : ℕ)
    → z < 2 ^ 64
    → ((i : ℕ) → i < n → z ≢ (s + suc i * gamma) % 2 ^ 64)
    → {x : ℕ} → Mem x (stream n s)
    → mix z ≢ x
unfolding stream
absent zero s z h away m e = not-mem-nil m
absent (suc n) s z h away m e =
    Or.elim ⊥_prop (mem-cons.0 m)
      (λ here.
        let same = mix-injective z ((s + gamma) % 2 ^ 64) h (omega arith) (e ∙ here) in
        away 0 (omega arith) (omega arith))
      (λ there.
        absent n ((s + gamma) % 2 ^ 64) z h (λ i lt p. away (suc i) (omega arith) (omega arith))
          there e)

stream-Nodup : (n s : ℕ) → n ≤ 2 ^ 64 → Nodup (stream n s)
unfolding stream
stream-Nodup zero s h = Pairwise.nil
stream-Nodup (suc n) s h =
    let next = (s + gamma) % 2 ^ 64 in
    Pairwise.cons (λ x m. absent n next next (omega arith) (λ i lt p. omega arith) m)
      (stream-Nodup n next (omega arith))

module _ {World : Type 0} (rng : SplitMix64 World) where
  -- `n` draws by any number of loops that share the generator. The `i`th is made after the others
  -- have done `others i`.
  pub draws_among : ℕ → (ℕ → World → World) → World → List ℕ
  unfolding next_u64
  draws_among zero others w = []
  draws_among (suc n) others w =
      let t = next_u64 rng (others 0 w) in t.0 ∷ draws_among n (λ i. others (suc i)) t.1

  draws_among-stream :
      (n : ℕ) (others : ℕ → World → World) (w : World)
      → IsCell rng
      → ((i : ℕ) (v : World) → rng.get (others i v) ≡ rng.get v)
      → draws_among n others w ≡ stream n (rng.get w)
  unfolding draws_among stream advance
  draws_among-stream zero others w cell kept = refl
  draws_among-stream (suc n) others w cell kept =
      let v = (advance rng (others 0 w)).1 in
      rw (
        draws_among-stream n (λ i. others (suc i)) v cell (λ i. kept (suc i)),
        cell.get-set,
        kept 0 w,
      )

  -- From any state in a lawful cell, no number is drawn twice in `2 ^ 64` draws, by whichever loops
  -- that share the generator and however they interleave: whatever is done between two draws leaves
  -- the generator alone.
  pub draws_among-Nodup :
      (n : ℕ) (others : ℕ → World → World) (w : World)
      → IsCell rng
      → ((i : ℕ) (v : World) → rng.get (others i v) ≡ rng.get v)
      → n ≤ 2 ^ 64
      → Nodup (draws_among n others w)
  draws_among-Nodup n others w cell kept h =
      rw (draws_among-stream n others w cell kept) (stream-Nodup n (rng.get w) h)

-- The first number of a generator whose nonce is of a counter and of the nanoseconds of the time.
abbrev first_of : (count now_nanos : ℕ) → ℕ
first_of count now_nanos =
    mix ((bit_xor default_jitter_seed (bit_xor count (now_nanos % 2 ^ 64)) + gamma) % 2 ^ 64)

first_of-injective :
    (c d now_nanos : ℕ)
    → c < 2 ^ 64
    → d < 2 ^ 64
    → first_of c now_nanos ≡ first_of d now_nanos
    → c ≡ d
first_of-injective c d now_nanos p q e =
    let time = now_nanos % 2 ^ 64 in
    let nonce_c = bit_xor c time in
    let nonce_d = bit_xor d time in
    let small_c =
      bit_xor-lt 64 default_jitter_seed nonce_c (omega arith)
        (bit_xor-lt 64 c time p (omega arith)) in
    let small_d =
      bit_xor-lt 64 default_jitter_seed nonce_d (omega arith)
        (bit_xor-lt 64 d time q (omega arith)) in
    let states =
      mix-injective ((bit_xor default_jitter_seed nonce_c + gamma) % 2 ^ 64)
        ((bit_xor default_jitter_seed nonce_d + gamma) % 2 ^ 64) (omega arith) (omega arith) e in
    let nonces = bit_xor_left-injective default_jitter_seed nonce_c nonce_d (omega arith) in
    sym (bit_xor-cancel c time) ∙ ap (λ n. bit_xor n time) nonces ∙ bit_xor-cancel d time

module _ {World : Type 0} (counter : Ref World ℕ) where
  -- A strategy is created with a fresh nonce, and draws once.
  abbrev pub first_draw : Wait World → JitterKind → SplitMix64 World → ℕ → M World ℕ
  first_draw inner kind rng now_nanos = do
    nonce ← next_jitter_nonce counter now_nanos
    jittered ← new inner kind rng nonce
    next_u64 jittered.rng

  -- The program goes on, and takes `k` more nonces meanwhile: `others i` is what it does before the
  -- `i`th, which it takes at the time `times i`.
  pub go_on : ℕ → (ℕ → World → World) → (ℕ → ℕ) → World → World
  unfolding next_jitter_nonce
  go_on zero others times w = others 0 w
  go_on (suc k) others times w =
      go_on k (λ i. others (suc i)) (λ i. times (suc i))
        (next_jitter_nonce counter (times 0) (others 0 w)).1

  go_on-counter :
      (k : ℕ) (others : ℕ → World → World) (times : ℕ → ℕ) (w : World)
      → IsCell counter
      → ((i : ℕ) (v : World) → counter.get (others i v) ≡ counter.get v)
      → counter.get w < 2 ^ 64
      → counter.get (go_on k others times w) ≡ (counter.get w + k) % 2 ^ 64
  unfolding go_on next_jitter_nonce
  go_on-counter zero others times w cell kept small = kept 0 w ∙ omega arith
  go_on-counter (suc k) others times w cell kept small =
      let moved =
        cell.get-set ((counter.get (others 0 w) + 1) % 2 ^ 64) (others 0 w)
        ∙ ap (λ c. (c + 1) % 2 ^ 64) (kept 0 w) in
      go_on-counter k (λ i. others (suc i)) (λ i. times (suc i))
        (next_jitter_nonce counter (times 0) (others 0 w)).1 cell (λ i. kept (suc i)) (omega arith)
      ∙ omega arith

  module _ (inner : Wait World) (kind : JitterKind) (rng : SplitMix64 World) (now_nanos : ℕ)
      (w : World) where
    first_draw-eq :
        IsCell rng → (first_draw inner kind rng now_nanos w).0 ≡ first_of (counter.get w) now_nanos
    unfolding next_jitter_nonce new next_u64 advance
    first_draw-eq cell = rw cell.get-set refl

    first_draw-counter :
        IsCell counter
        → Apart counter rng
        → counter.get (first_draw inner kind rng now_nanos w).1 ≡ (counter.get w + 1) % 2 ^ 64
    unfolding next_jitter_nonce new next_u64 advance
    first_draw-counter cell apart = apart _ _ ∙ apart _ _ ∙ cell.get-set _ w

  -- Two strategies that are created one after the other at the same system time draw different first
  -- numbers, whatever their wait strategies, kinds and generators, where fewer than `2 ^ 64 - 1`
  -- nonces are taken between the two. The cells of the nonce counter, a `u64`, and of both
  -- generators are lawful, and neither the first generator nor the rest of the program writes the
  -- counter.
  pub first_draw_distinct :
      (inner inner' : Wait World) (kind kind' : JitterKind) (rng rng' : SplitMix64 World)
      (now_nanos k : ℕ) (others : ℕ → World → World) (times : ℕ → ℕ) (w : World)
      → IsCell counter
      → IsCell rng
      → IsCell rng'
      → Apart counter rng
      → ((i : ℕ) (v : World) → counter.get (others i v) ≡ counter.get v)
      → counter.get w < 2 ^ 64
      → k + 1 < 2 ^ 64
      → let first = first_draw inner kind rng now_nanos w in
        first.0 ≢ (first_draw inner' kind' rng' now_nanos (go_on k others times first.1)).0
  first_draw_distinct inner inner' kind kind' rng rng' now_nanos k others times w cell lawful
        lawful' apart kept small few e =
      let first = first_draw inner kind rng now_nanos w in
      let later = go_on k others times first.1 in
      let once : counter.get first.1 ≡ (counter.get w + 1) % 2 ^ 64 =
        first_draw-counter inner kind rng now_nanos w cell apart in
      let count : counter.get later ≡ (counter.get first.1 + k) % 2 ^ 64 =
        go_on-counter k others times first.1 cell kept (omega arith) in
      let same : counter.get w ≡ counter.get later =
        first_of-injective (counter.get w) (counter.get later) now_nanos small (omega arith) (
          sym (first_draw-eq inner kind rng now_nanos w lawful)
          ∙ e
          ∙ first_draw-eq inner' kind' rng' now_nanos later lawful') in
      omega arith
