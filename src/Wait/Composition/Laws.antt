-- ===== src/Wait/Composition/Laws.antt =====
-- The algebra of the composed waits of src/wait/composition.rs.
use tenacious.Prelude.{ℕ, ◌≡◌, min, arith}
use tenacious.Duration.{Duration}
use tenacious.State.{RetryState}
use tenacious.Wait.Base.{Wait}
use tenacious.Wait.Composition.{cap_at, add, chain, capped_wait, combine_wait, chain_wait}

module _ {World : Type 0} (a b c : Wait World) (state : RetryState) (w : World) where
  -- A cap on a chain caps each part, a cap on a cap is the smaller of the two, and sums may be
  -- regrouped: in each case the delays and the effects, in their order, are the same.
  capped-chain :
      (after : ℕ) (max other : Duration)
      → (capped_wait (cap_at (chain_wait (chain a b after)) max) state w
          ≡ chain_wait
              (chain (capped_wait (cap_at a max)) (capped_wait (cap_at b max)) after)
              state
              w)
        × (capped_wait (cap_at (capped_wait (cap_at a max)) other) state w
            ≡ capped_wait (cap_at a (min max other)) state w)
        × (combine_wait (add (combine_wait (add a b)) c) state w
            ≡ combine_wait (add a (combine_wait (add b c))) state w)
  unfolding capped_wait chain_wait cap_at chain combine_wait add
  capped-chain after max other = (ground arith, ground arith, ground arith)
