-- ===== src/Engine/Sync/WithStats.antt =====
-- src/engine/mod.rs: a retry whose `call` returns the stats as well.
use tenacious.Prelude.{ℕ, Option, M}
use tenacious.Engine.Sync.{Retry, Finished, run}

pub record RetryWithStats (World R A O : Type 0) : Type 0 where
  pub inner : Retry World R A O

module _ {World R A O : Type 0} where
  unfoldable pub with_stats : Retry World R A O → RetryWithStats World R A O
  with_stats self = record { inner = self }

  unfoldable pub call : ℕ → RetryWithStats World R A O → M World (Option (Finished R A O))
  call fuel self = run fuel self.inner
