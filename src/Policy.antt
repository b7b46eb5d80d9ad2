-- ===== src/Policy.antt =====
-- src/policy/mod.rs: the reusable configuration.
pub mod Laws
use mathlib.Core.Option
use tenacious.Prelude.{ℕ, Option, none, some, M, Result, Poll}
use tenacious.Duration.{Duration}
use tenacious.Float.{Float}
use tenacious.Predicate.{Predicate}
use tenacious.Decision
use tenacious.Decision.{Decide, Outcome, IntoDecision, default_classifier, closure_classifier}
use tenacious.Stop
use tenacious.Wait
use tenacious.Stop.{Stop, attempts, after_attempts}
use tenacious.Wait.{Wait}
use tenacious.Wait.Strategies.{exponential, exponential_wait}
use tenacious.Clock.{SyncClock, AsyncClock}
use tenacious.Engine.Op.{RetryOp}
use tenacious.Engine.Sync.{Retry}
use tenacious.Engine.Sync.Builder
use tenacious.Engine.Async.{AsyncRetry}
use tenacious.Engine.Async.Builder as AsyncBuilder

abbrev default_max_attempts : ℕ
default_max_attempts = 3

-- 100 ms.
abbrev default_initial_wait : Duration
default_initial_wait = 100_000_000

pub record RetryPolicy (World R A O : Type 0) : Type 0 where
  pub stop : Stop World
  pub wait : Wait World
  pub classifier : Decide World R A O
  pub timeout : Option Duration

module _ {World R A O : Type 0} where
  -- `none` would be the panic of `stop::attempts`.
  unfoldable pub new : Float → Outcome O R A → Option (RetryPolicy World R A O)
  unfolding attempts after_attempts exponential exponential_wait default_classifier
  new f outcome =
      Option.map
        (λ stop. record {
          stop = after_attempts stop;
          wait = exponential_wait f (exponential f default_initial_wait);
          classifier = default_classifier outcome;
          timeout = none;
        })
        (attempts default_max_attempts)

  unfoldable pub with_stop : Stop World → RetryPolicy World R A O → RetryPolicy World R A O
  with_stop stop self = record self { stop = stop }

  unfoldable pub with_wait : Wait World → RetryPolicy World R A O → RetryPolicy World R A O
  with_wait wait self = record self { wait = wait }

  pub with_timeout : Duration → RetryPolicy World R A O → RetryPolicy World R A O
  with_timeout dur self = record self { timeout = some dur }

  unfoldable decide :
      {D : Type 0}
      → IntoDecision D R A O
      → (O → M World D)
      → RetryPolicy World R A O
      → RetryPolicy World R A O
  unfolding closure_classifier
  decide into closure self = record self { classifier = closure_classifier into closure }

  pub boxed : RetryPolicy World R A O → RetryPolicy World R A O
  unfolding Stop.boxed Wait.boxed
  boxed self = record self { stop = Stop.boxed self.stop; wait = Wait.boxed self.wait }

  pub boxed_local : RetryPolicy World R A O → RetryPolicy World R A O
  unfolding Stop.boxed Wait.boxed
  boxed_local self = record self { stop = Stop.boxed self.stop; wait = Wait.boxed self.wait }

  -- A built retry borrows the policy's strategies and its classifier.
  pub retry : SyncClock World → RetryPolicy World R A O → RetryOp World O → Retry World R A O
  unfolding Builder.from_parts
  retry system self op =
      Builder.from_parts system op self.classifier self.stop self.wait self.timeout

  -- `system` stands in the slot that the source fills with the `SystemClock`, as in the builder.
  unfoldable pub retry_async :
      {Fut WaitFut : Type 0}
      → AsyncClock World WaitFut
      → (Fut → M World (Poll O × Fut))
      → RetryPolicy World R A O
      → RetryOp World Fut
      → AsyncRetry World Fut WaitFut R A O
  unfolding AsyncBuilder.from_parts
  retry_async system poll_op self op =
      AsyncBuilder.from_parts system poll_op op self.classifier self.stop self.wait self.timeout

module _ {World T E : Type 0} where
  pub when :
      Predicate World T E → RetryPolicy World T E (Result T E) → RetryPolicy World T E (Result T E)
  unfolding Decision.when
  when predicate self = record self { classifier = Decision.when predicate }

  unfoldable pub until :
      Predicate World T E → RetryPolicy World T E (Result T E) → RetryPolicy World T E (Result T E)
  unfolding Decision.until
  until predicate self = record self { classifier = Decision.until predicate }
