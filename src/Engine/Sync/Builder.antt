-- ===== src/Engine/Sync/Builder.antt =====
-- src/engine/mod.rs: how a sync retry is put together. A setter that changes the classifier keeps
-- the return and abort types: the exit hooks that are registered are typed by them. Where no exit
-- hook is registered, `decide_anew` is `decide` with other types.
use mathlib.Core.Option
use tenacious.Prelude.{ℕ, Option, none, some, M, Result}
use tenacious.Duration.{Duration}
use tenacious.State.{RetryState}
use tenacious.Float.{Float}
use tenacious.Predicate.{Predicate}
use tenacious.Decision
use tenacious.Decision.{Decide, Outcome, IntoDecision, default_classifier, closure_classifier}
use tenacious.Stop.{Stop, attempts, after_attempts}
use tenacious.Wait.{Wait}
use tenacious.Wait.Strategies.{exponential, exponential_wait}
use tenacious.Clock.{SyncClock}
use tenacious.Engine.Hooks
use tenacious.Engine.Hooks.{Hook, no_hook}
use tenacious.Engine.Op.{RetryOp, stateless_op}
use tenacious.Engine.State.{AttemptState, Exit}
use tenacious.Engine.Sync.{Retry}

abbrev pub default_max_attempts : ℕ
default_max_attempts = 3

-- 100 ms.
abbrev pub default_initial_wait : Duration
default_initial_wait = 100_000_000

module _ {World R A O : Type 0} where
  -- `system` is the `SystemClock`, whose readings and sleeps are the platform's.
  unfoldable pub from_parts :
      SyncClock World
      → RetryOp World O
      → Decide World R A O
      → Stop World
      → Wait World
      → Option Duration
      → Retry World R A O
  unfolding Hooks.new
  from_parts system op classifier stop wait timeout = record {
    op = op;
    classifier = classifier;
    stop = stop;
    wait = wait;
    clock = system;
    hooks = Hooks.new;
    timeout = timeout;
  }

  -- `none` would be the panic of `stop::attempts`.
  unfoldable pub from_op :
      Float → SyncClock World → Outcome O R A → RetryOp World O → Option (Retry World R A O)
  unfolding from_parts attempts after_attempts exponential exponential_wait default_classifier
  from_op f system outcome op =
      Option.map
        (λ stop.
          from_parts system op (default_classifier outcome) (after_attempts stop)
            (exponential_wait f (exponential f default_initial_wait)) none)
        (attempts default_max_attempts)

  -- The free function `retry`.
  unfoldable pub retry :
      Float → SyncClock World → Outcome O R A → RetryOp World O → Option (Retry World R A O)
  unfolding from_op
  retry f system outcome op = from_op f system outcome op

  -- The extension method `retry` of a closure without argument.
  unfoldable pub retry_ext :
      Float → SyncClock World → Outcome O R A → M World O → Option (Retry World R A O)
  unfolding from_op stateless_op
  retry_ext f system outcome op = from_op f system outcome (stateless_op op)

  unfoldable pub with_stop : Stop World → Retry World R A O → Retry World R A O
  with_stop stop self = record self { stop = stop }

  unfoldable pub with_wait : Wait World → Retry World R A O → Retry World R A O
  with_wait wait self = record self { wait = wait }

  unfoldable pub with_clock : SyncClock World → Retry World R A O → Retry World R A O
  with_clock clock self = record self { clock = clock }

  with_classifier : Decide World R A O → Retry World R A O → Retry World R A O
  with_classifier classifier self = record self { classifier = classifier }

  unfoldable pub decide :
      {D : Type 0} → IntoDecision D R A O → (O → M World D) → Retry World R A O → Retry World R A O
  unfolding with_classifier
  decide into closure self = with_classifier (closure_classifier into closure) self

  unfoldable pub with_timeout : Duration → Retry World R A O → Retry World R A O
  with_timeout dur self = record self { timeout = some dur }

  unfoldable pub before_attempt : Hook World RetryState → Retry World R A O → Retry World R A O
  unfolding Hooks.chain_before_attempt
  before_attempt hook self = record self { hooks = Hooks.chain_before_attempt hook self.hooks }

  unfoldable pub after_attempt : Hook World (AttemptState O) → Retry World R A O → Retry World R A O
  unfolding Hooks.chain_after_attempt
  after_attempt hook self = record self { hooks = Hooks.chain_after_attempt hook self.hooks }

  unfoldable pub on_exit : Hook World (Exit R A O) → Retry World R A O → Retry World R A O
  unfolding Hooks.chain_on_exit
  on_exit hook self = record self { hooks = Hooks.chain_on_exit hook self.hooks }

-- `decide` on a builder whose exit slot is still `()`, which is a hook at every type.
unfoldable pub decide_anew :
    {World R A S B O D : Type 0}
    → IntoDecision D S B O
    → (O → M World D)
    → Retry World R A O
    → Retry World S B O
decide_anew into closure self = record {
  op = self.op;
  classifier = closure_classifier into closure;
  stop = self.stop;
  wait = self.wait;
  clock = self.clock;
  hooks = record {
    before_attempt = self.hooks.before_attempt;
    after_attempt = self.hooks.after_attempt;
    on_exit = no_hook;
  };
  timeout = self.timeout;
}

module _ {World T E : Type 0} where
  unfoldable pub when :
      Predicate World T E → Retry World T E (Result T E) → Retry World T E (Result T E)
  unfolding with_classifier
  when predicate self = with_classifier (Decision.when predicate) self

  unfoldable pub until :
      Predicate World T E → Retry World T E (Result T E) → Retry World T E (Result T E)
  unfolding with_classifier
  until predicate self = with_classifier (Decision.until predicate) self
