-- ===== src/Engine/Async/Builder.antt =====
-- src/engine/async_engine.rs: how an async retry is put together, as in the sync engine's builder.
use mathlib.Core.Option
use tenacious.Prelude.{ℕ, Option, none, some, M, Result, Poll}
use tenacious.Duration.{Duration}
use tenacious.State.{RetryState}
use tenacious.Float.{Float}
use tenacious.Predicate.{Predicate}
use tenacious.Decision
use tenacious.Decision.{Decide, Outcome, IntoDecision, default_classifier, closure_classifier}
use tenacious.Stop.{Stop, attempts, after_attempts}
use tenacious.Wait.{Wait}
use tenacious.Wait.Strategies.{exponential, exponential_wait}
use tenacious.Clock.{AsyncClock}
use tenacious.Engine.Hooks
use tenacious.Engine.Hooks.{Hook, no_hook}
use tenacious.Engine.Op.{RetryOp, stateless_op}
use tenacious.Engine.State.{AttemptState, Exit}
use tenacious.Engine.Async.{AsyncRetry}

abbrev default_max_attempts : ℕ
default_max_attempts = 3

-- 100 ms.
abbrev default_initial_wait : Duration
default_initial_wait = 100_000_000

module _ {World Fut WaitFut R A O : Type 0} where
  -- The source puts the `SystemClock` in the clock slot, which is no `AsyncClock`: a retry cannot be
  -- called until `.clock` has replaced it. `system` is any clock in its place, here and below, and
  -- `poll_op` the `poll` of the operation's futures.
  unfoldable pub from_parts :
      AsyncClock World WaitFut
      → (Fut → M World (Poll O × Fut))
      → RetryOp World Fut
      → Decide World R A O
      → Stop World
      → Wait World
      → Option Duration
      → AsyncRetry World Fut WaitFut R A O
  unfolding Hooks.new
  from_parts system poll_op op classifier stop wait timeout = record {
    op = op;
    poll_op = poll_op;
    classifier = classifier;
    stop = stop;
    wait = wait;
    clock = system;
    hooks = Hooks.new;
    timeout = timeout;
  }

  -- `none` would be the panic of `stop::attempts`.
  unfoldable pub from_op :
      Float
      → AsyncClock World WaitFut
      → (Fut → M World (Poll O × Fut))
      → Outcome O R A
      → RetryOp World Fut
      → Option (AsyncRetry World Fut WaitFut R A O)
  unfolding from_parts attempts after_attempts exponential exponential_wait default_classifier
  from_op f system poll_op outcome op =
      Option.map
        (λ stop.
          from_parts system poll_op op (default_classifier outcome) (after_attempts stop)
            (exponential_wait f (exponential f default_initial_wait)) none)
        (attempts default_max_attempts)

  -- The free function `retry_async`.
  unfoldable pub retry_async :
      Float
      → AsyncClock World WaitFut
      → (Fut → M World (Poll O × Fut))
      → Outcome O R A
      → RetryOp World Fut
      → Option (AsyncRetry World Fut WaitFut R A O)
  unfolding from_op
  retry_async f system poll_op outcome op = from_op f system poll_op outcome op

  -- The extension method `retry_async` of a closure without argument.
  unfoldable pub retry_async_ext :
      Float
      → AsyncClock World WaitFut
      → (Fut → M World (Poll O × Fut))
      → Outcome O R A
      → M World Fut
      → Option (AsyncRetry World Fut WaitFut R A O)
  unfolding from_op stateless_op
  retry_async_ext f system poll_op outcome op = from_op f system poll_op outcome (stateless_op op)

  unfoldable pub with_stop :
      Stop World → AsyncRetry World Fut WaitFut R A O → AsyncRetry World Fut WaitFut R A O
  with_stop stop self = record self { stop = stop }

  unfoldable pub with_wait :
      Wait World → AsyncRetry World Fut WaitFut R A O → AsyncRetry World Fut WaitFut R A O
  with_wait wait self = record self { wait = wait }

  unfoldable pub with_clock :
      AsyncClock World WaitFut
      → AsyncRetry World Fut WaitFut R A O
      → AsyncRetry World Fut WaitFut R A O
  with_clock clock self = record self { clock = clock }

  with_classifier :
      Decide World R A O → AsyncRetry World Fut WaitFut R A O → AsyncRetry World Fut WaitFut R A O
  with_classifier classifier self = record self { classifier = classifier }

  unfoldable pub decide :
      {D : Type 0}
      → IntoDecision D R A O
      → (O → M World D)
      → AsyncRetry World Fut WaitFut R A O
      → AsyncRetry World Fut WaitFut R A O
  unfolding with_classifier
  decide into closure self = with_classifier (closure_classifier into closure) self

  unfoldable with_timeout :
      Duration → AsyncRetry World Fut WaitFut R A O → AsyncRetry World Fut WaitFut R A O
  with_timeout dur self = record self { timeout = some dur }

  unfoldable pub before_attempt :
      Hook World RetryState
      → AsyncRetry World Fut WaitFut R A O
      → AsyncRetry World Fut WaitFut R A O
  unfolding Hooks.chain_before_attempt
  before_attempt hook self = record self { hooks = Hooks.chain_before_attempt hook self.hooks }

  unfoldable pub after_attempt :
      Hook World (AttemptState O)
      → AsyncRetry World Fut WaitFut R A O
      → AsyncRetry World Fut WaitFut R A O
  unfolding Hooks.chain_after_attempt
  after_attempt hook self = record self { hooks = Hooks.chain_after_attempt hook self.hooks }

  unfoldable pub on_exit :
      Hook World (Exit R A O)
      → AsyncRetry World Fut WaitFut R A O
      → AsyncRetry World Fut WaitFut R A O
  unfolding Hooks.chain_on_exit
  on_exit hook self = record self { hooks = Hooks.chain_on_exit hook self.hooks }

-- `decide` on a builder whose exit slot is still `()`, which is a hook at every type.
unfoldable pub decide_anew :
    {World Fut WaitFut R A S B O D : Type 0}
    → IntoDecision D S B O
    → (O → M World D)
    → AsyncRetry World Fut WaitFut R A O
    → AsyncRetry World Fut WaitFut S B O
decide_anew into closure self = record {
  op = self.op;
  poll_op = self.poll_op;
  classifier = closure_classifier into closure;
  stop = self.stop;
  wait = self.wait;
  clock = self.clock;
  hooks = record {
    before_attempt = self.hooks.before_attempt;
    after_attempt = self.hooks.after_attempt;
    on_exit = no_hook;
  };
  timeout = self.timeout;
}

module _ {World Fut WaitFut T E : Type 0} where
  unfoldable when :
      Predicate World T E
      → AsyncRetry World Fut WaitFut T E (Result T E)
      → AsyncRetry World Fut WaitFut T E (Result T E)
  unfolding with_classifier
  when predicate self = with_classifier (Decision.when predicate) self

  unfoldable pub until :
      Predicate World T E
      → AsyncRetry World Fut WaitFut T E (Result T E)
      → AsyncRetry World Fut WaitFut T E (Result T E)
  unfolding with_classifier
  until predicate self = with_classifier (Decision.until predicate) self
