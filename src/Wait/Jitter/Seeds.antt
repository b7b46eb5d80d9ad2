-- ===== src/Wait/Jitter/Seeds.antt =====
-- The sequences that the generator of src/wait/jitter.rs draws.
use tenacious.Prelude.{
  ℕ, zero, suc, ◌+◌, ◌*◌, ◌%◌, ◌^◌, ◌<◌, List, [], ◌∷◌, ◌≡◌, ◌≢◌, refl, arith, M, pure, ◌>>=◌,
  IsCell,
}
use tenacious.Wait.Jitter.{SplitMix64, gamma, mix, advance, next_u64, Jittered, with_seed}

module _ {World : Type 0} (rng : SplitMix64 World) where
  -- `n` draws in a row.
  draws : ℕ → M World (List ℕ)
  unfolding next_u64
  draws zero = pure []
  draws (suc n) = do z ← next_u64 rng; zs ← draws n; pure (z ∷ zs)

  -- The state after `n` steps.
  state_after : ℕ → World → ℕ
  unfolding advance
  state_after zero w = rng.get w
  state_after (suc n) w = state_after n (advance rng w).1

unfoldable pub stream : ℕ → ℕ → List ℕ
stream zero s = []
stream (suc n) s = let next = (s + gamma) % 2 ^ 64 in mix next ∷ stream n next

module _ {World : Type 0} (rng : SplitMix64 World) (cell : IsCell rng) where
  draws-stream : (n : ℕ) (w : World) → (draws rng n w).0 ≡ stream n (rng.get w)
  unfolding draws stream advance
  draws-stream zero w = refl
  draws-stream (suc n) w = rw (draws-stream n (advance rng w).1, cell.get-set)

  state_after-eq :
      (n : ℕ) (w : World)
      → rng.get w < 2 ^ 64
      → state_after rng n w ≡ (rng.get w + n * gamma) % 2 ^ 64
  unfolding state_after
  state_after-eq zero w h = omega arith
  state_after-eq (suc n) w h =
      let g = cell.get-set ((rng.get w + gamma) % 2 ^ 64) w in
      let ih = state_after-eq n (advance rng w).1 (omega arith) in omega arith

  -- From a `u64` state in a lawful cell, no state of the generator comes twice within a full
  -- period: two different numbers of steps under `2 ^ 64` lead to different states.
  state_after_distinct :
      (w : World) (i j : ℕ)
      → rng.get w < 2 ^ 64
      → i < j
      → j < 2 ^ 64
      → state_after rng i w ≢ state_after rng j w
  state_after_distinct w i j small lt bound e =
      let a = state_after-eq i w small in let b = state_after-eq j w small in omega arith

module _ {World : Type 0} where
  -- The seed alone pins the sequence: after `with_seed` with one seed, two strategies with
  -- lawful cells draw the same numbers, whatever was in their generators and worlds before.
  draws-with_seed :
      (seed n : ℕ) (j k : Jittered World) (v w : World)
      → IsCell j.rng
      → IsCell k.rng
      → (draws j.rng n (with_seed seed j v).1).0 ≡ (draws k.rng n (with_seed seed k w).1).0
  unfolding with_seed
  draws-with_seed seed n j k v w jc kc =
      rw (draws-stream j.rng jc, draws-stream k.rng kc, jc.get-set, kc.get-set)
