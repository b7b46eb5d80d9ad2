-- ===== src/Stop/Laws.antt =====
-- How the stop strategies of src/stop compose.
use tenacious.Prelude.{
  le→leb, lt→not_leb, not_leb→lt, Bool-cases, inl, inr, ◌⊎◌, ℕ, ◌+◌, ◌<◌, min, false, none, some,
  ◌≡◌, refl, arith, leb,
}
use tenacious.State.{RetryState}
use tenacious.Stop.{Stop, StopAfterAttempts, StopsBy, attempts, after_attempts, any, all}

-- `stop::attempts` panics at 0 alone, and the strategy that it gives otherwise stops from that
-- attempt on and not before, in every world.
attempts-after_attempts :
    {World : Type 0} (n : ℕ)
    → ((n ≡ 0) × (attempts n ≡ none))
      ⊎ ((s : StopAfterAttempts) × (attempts n ≡ some s)
          × StopsBy n (after_attempts {World = World} s)
          × ((state : RetryState) (w : World)
              → state.attempt < n
              → (after_attempts s state w).0 ≡ false))
unfolding attempts after_attempts
attempts-after_attempts n = elim (Bool-cases (leb 1 n)) [
  | inl e ↦ inr (
    record { max = n },
    rw e refl,
    (λ state w h. le→leb n state.attempt h),
    (λ state w h. lt→not_leb n state.attempt h),
  )
  | inr e ↦ let zero_max = not_leb→lt 1 n e in inl (omega arith, rw e refl)
]

module _ {World : Type 0} where
  -- `any` stops by the first of its two sides' limits, and `all` by the second, whatever the
  -- strategies do to the world.
  any-all-StopsBy :
      (m n : ℕ) (left right : Stop World)
      → StopsBy m left
      → StopsBy n right
      → StopsBy (min m n) (any left right) × StopsBy (m + n) (all left right)
  unfolding any all
  any-all-StopsBy m n left right by_left by_right = (
    (λ state w h. ground (arith, by_left state w, by_right state (left state w).1)),
    (λ state w h. ground (arith, by_left state w, by_right state (left state w).1)),
  )

  -- The composites are associative, with the effects that the parts have on the world: the parts
  -- are asked from left to right, each of them once.
  any-all_assoc :
      (a b c : Stop World) (state : RetryState) (w : World)
      → (any a (any b c) state w ≡ any (any a b) c state w)
        × (all a (all b c) state w ≡ all (all a b) c state w)
  unfolding any all
  any-all_assoc a b c state w = (ground arith, ground arith)
