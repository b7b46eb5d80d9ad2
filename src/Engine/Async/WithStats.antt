-- ===== src/Engine/Async/WithStats.antt =====
-- src/engine/async_engine.rs: a retry whose future yields the stats as well.
use tenacious.Engine.Async.{AsyncRetry, AsyncRun, into_run}

pub record AsyncRetryWithStats (World Fut WaitFut R A O : Type 0) : Type 0 where
  pub inner : AsyncRetry World Fut WaitFut R A O

module _ {World Fut WaitFut R A O : Type 0} where
  unfoldable pub with_stats :
      AsyncRetry World Fut WaitFut R A O → AsyncRetryWithStats World Fut WaitFut R A O
  with_stats self = record { inner = self }

  unfoldable pub call :
      AsyncRetryWithStats World Fut WaitFut R A O → AsyncRun World Fut WaitFut R A O
  call self = into_run self.inner
