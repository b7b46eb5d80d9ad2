-- ===== src/Engine/Async/Reaches.antt =====
-- Executions of the future of src/engine/async_engine.rs, over any number of polls.
use tenacious.Prelude.{ℕ, zero, suc, ◌+◌, ◌≤◌, Option, some, ◌≡◌, ◌⊎◌, inl, inr, M, arith}
use tenacious.Prelude.{Poll, pending, ready}
use tenacious.Duration.{Duration}
use tenacious.Engine.Sync.{Cursor, Finished}
use tenacious.Engine.Async.{
  AsyncRetry, AsyncRun, Phase, Turn, turn, poll_loop, poll, block_on, after_poll,
}

-- Polled again and again, the future ends with this value in this world.
pub data Completes {World Fut A : Type 0} (poll : Fut → M World (Poll A × Fut))
    : Fut → World → A → World → Type 0 where
  at_once :
      {fut fut' : Fut} {w w' : World} {a : A}
      → poll fut w ≡ ((ready a, fut'), w')
      → Completes poll fut w a w'
  later :
      {fut fut' : Fut} {w v w' : World} {a : A}
      → poll fut w ≡ ((pending, fut'), v)
      → Completes poll fut' v a w'
      → Completes poll fut w a w'

module _ {World Fut WaitFut R A O : Type 0} (self : AsyncRetry World Fut WaitFut R A O)
    (origin : Duration) where
  -- The future once its baseline is taken.
  abbrev pub at : Phase Fut WaitFut → Cursor → AsyncRun World Fut WaitFut R A O
  at phase c = record { retry = self; phase = phase; cursor = c; origin = some origin }

  -- The rest of a poll with `j` turns of fuel, and of an executor behind it.
  abbrev pub resume_with :
      ℕ → ℕ → ℕ → AsyncRun World Fut WaitFut R A O → M World (Option (Finished R A O))
  resume_with n k j r w =
      let t = poll_loop j origin r w in after_poll (block_on n k) t.0.0 t.0.1 t.1

  -- From this phase the future ends with `f` in the world `w'`, given enough polls and fuel.
  abbrev pub Reaches : Phase Fut WaitFut → Cursor → World → Finished R A O → World → Type 0
  Reaches phase c w f w' =
      (polls : ℕ) × (fuel : ℕ) × (turns : ℕ) × ((n k j : ℕ)
        → polls ≤ n
        → fuel ≤ k
        → turns ≤ j
        → resume_with n k j (at phase c) w ≡ (some f, w'))

  -- A turn that leads to `f`.
  abbrev pub Goes :
      (Turn R A O × AsyncRun World Fut WaitFut R A O) × World → Finished R A O → World → Type 0
  Goes t f w' =
      ((phase : Phase Fut WaitFut) × (c : Cursor) × (v : World) × (t
          ≡ ((Turn.go_on, at phase c), v))
        × Reaches phase c v f w')
      ⊎ ((r : AsyncRun World Fut WaitFut R A O) × (t ≡ ((Turn.return (ready f), r), w')))

  module _ (phase : Phase Fut WaitFut) (c : Cursor) (w : World) {f : Finished R A O}
      {w' : World} where
    pub Goes-Reaches : Goes (turn origin (at phase c) w) f w' → Reaches phase c w f w'
    unfolding poll_loop
    Goes-Reaches (inl (phase', c', v, e, (polls, fuel, turns, h))) =
        (polls, fuel, suc turns, further)
      where
        further :
            (n k j : ℕ)
            → polls ≤ n
            → fuel ≤ k
            → suc turns ≤ j
            → resume_with n k j (at phase c) w ≡ (some f, w')
        further n k zero a b d = absurd (omega arith)
        further n k (suc j) a b d = rw e (h n k j a b (omega arith))
    Goes-Reaches (inr (r, e)) = (0, 0, 1, ends)
      where
        ends : (n k j : ℕ) → 0 ≤ n → 0 ≤ k → 1 ≤ j → resume_with n k j (at phase c) w ≡ (some f, w')
        ends n k zero a b d = absurd (omega arith)
        ends n k (suc j) a b d = rw e

    -- A poll that ends pending is taken up by the next one.
    pub pending-Reaches :
        {phase' : Phase Fut WaitFut} {v : World}
        → turn origin (at phase c) w ≡ ((Turn.return pending, at phase' c), v)
        → Reaches phase' c v f w'
        → Reaches phase c w f w'
    unfolding poll_loop block_on poll
    pending-Reaches e (polls, fuel, turns, h) = (suc polls, fuel + turns, 1, again)
      where
        again :
            (n k j : ℕ)
            → suc polls ≤ n
            → fuel + turns ≤ k
            → 1 ≤ j
            → resume_with n k j (at phase c) w ≡ (some f, w')
        again zero k j a b d = absurd (omega arith)
        again (suc n) k zero a b d = absurd (omega arith)
        again (suc n) k (suc j) a b d = rw e (h n k k (omega arith) (omega arith) (omega arith))
