-- ===== src/Wait/Composition.antt =====
-- src/wait/composition.rs: caps, sums and chains of wait strategies. `capped_jitter` stands in
-- Wait/Jitter.antt.
pub mod Laws
use tenacious.Prelude.{ℕ, min, M, pure, ◌>>=◌, leb, if◌then◌else◌}
use tenacious.Duration.{Duration, saturating_add}
use tenacious.State.{RetryState}
use tenacious.Wait.Base.{Wait}

pub record WaitCapped (World : Type 0) : Type 0 where
  pub inner : Wait World
  pub max : Duration

pub record WaitCombine (World : Type 0) : Type 0 where
  pub left : Wait World
  pub right : Wait World

pub record WaitChain (World : Type 0) : Type 0 where
  pub first : Wait World
  pub second : Wait World
  pub after : ℕ

module _ {World : Type 0} where
  -- The trait's `cap`, `add` and `chain`.
  unfoldable pub cap_at : Wait World → Duration → WaitCapped World
  cap_at self max = record { inner = self; max = max }

  pub add : Wait World → Wait World → WaitCombine World
  add self other = record { left = self; right = other }

  pub chain : Wait World → Wait World → ℕ → WaitChain World
  chain self other after = record { first = self; second = other; after = after }

  -- The operator `+`.
  unfoldable plus : Wait World → Wait World → WaitCombine World
  unfolding add
  plus self rhs = add self rhs

  unfoldable pub capped_wait : WaitCapped World → Wait World
  capped_wait self state = do d ← self.inner state; pure (min d self.max)

  -- Both sides are asked, the left one first.
  pub combine_wait : WaitCombine World → Wait World
  combine_wait self state = do
    left ← self.left state
    right ← self.right state
    pure (saturating_add left right)

  pub chain_wait : WaitChain World → Wait World
  chain_wait self state =
      if leb state.attempt self.after then self.first state else self.second state
