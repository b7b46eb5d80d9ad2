-- ===== src/Examples/TestingWithVirtualClock/Budget.antt =====
-- That the budget of examples/testing-with-virtual-clock.rs ends its loop, on any clock.
use Prim.Native.String.{String}
use tenacious.Prelude.{ℕ, ◌+◌, ◌-◌, ◌*◌, ◌^◌, ◌≤◌, min, ◌≡◌, refl, arith, some, Result, M}
use tenacious.Prelude.{two_pow_mono}
use tenacious.Duration
use tenacious.State.{RetryState}
use tenacious.Float.{Float, IsIeee}
use tenacious.Decision.{default_classifier, result_outcome}
use tenacious.Stop.{attempts, never}
use tenacious.Wait.Strategies.{exponential, exponential_wait}
use tenacious.Wait.Strategies.Exponential.{exponential_wait-eq}
use tenacious.Wait.Composition.{cap_at, capped_wait}
use tenacious.Wait.{Wait}
use tenacious.Clock.{SyncClock}
use tenacious.Clock.Contract.{IsCoherent, Onward}
use tenacious.Engine.Hooks
use tenacious.Engine.Sync.{Retry, Finished, run}
use tenacious.Engine.Sync.Builder.{
  retry, from_op, from_parts, with_stop, with_wait, with_clock, with_timeout,
}
use tenacious.Engine.Sync.Frame.{Moves}
use tenacious.Engine.Sync.Rounds.{run-le}
use tenacious.Engine.Sync.Expiry.{run_timeout-total}
use tenacious.Examples.TestingWithVirtualClock.{initial_backoff, backoff_cap, budget, fetch_retry}

module _ {World : Type 0} (f : Float) (ieee : IsIeee f) where
  abbrev pub backoff : Wait World
  backoff = capped_wait (cap_at (exponential_wait f (exponential f initial_backoff)) backoff_cap)

  pub backoff-eq :
      (state : RetryState) (w : World)
      → backoff state w
        ≡ (min (min (initial_backoff * 2 ^ (state.attempt - 1)) Duration.max) backoff_cap, w)
  unfolding capped_wait cap_at
  backoff-eq state w = rw (exponential_wait-eq f ieee initial_backoff state w (omega arith)) refl

  backoff-ge : (state : RetryState) (w : World) → initial_backoff ≤ (backoff state w).0
  backoff-ge state w =
      let grown : 1 ≤ 2 ^ (state.attempt - 1) = two_pow_mono 0 (state.attempt - 1) (omega arith) in
      rw (backoff-eq state w) (omega arith)

  -- What `fetch_retry` builds.
  abbrev pub fetching :
      M World (Result ℕ String) → SyncClock World → Retry World ℕ String (Result ℕ String)
  fetching operation clock = record {
    op = λ _. operation;
    classifier = default_classifier result_outcome;
    stop = never;
    wait = backoff;
    clock = clock;
    hooks = Hooks.new;
    timeout = some budget;
  }

  module _ (system : SyncClock World) (operation : M World (Result ℕ String))
      (clock : SyncClock World) (Ready : World → Type 0) (coherent : IsCoherent clock Ready)
      (op_onward : (w : World) → Onward clock Ready w (operation w).1) where
    stays : (w : World) → Onward clock Ready w w
    stays w ready = (ready, omega arith)

    fetching-Moves : Moves (Onward clock Ready) (fetching operation clock)
    unfolding default_classifier never Hooks.new
    fetching-Moves = record {
      op = λ state w. op_onward w;
      rest = record {
        classifier = λ outcome w. stays w;
        stop = λ state w. stays w;
        wait = λ state w. rw (backoff-eq state w) (stays w);
        before_attempt = λ view w. stays w;
        after_attempt = λ view w. stays w;
        on_exit = λ view w. stays w;
      };
    }

    -- `fetch_with_retries` stops by its budget alone: on every clock that keeps its contract and can
    -- show the end of the budget, with every operation that does not set the clock back, the retry is
    -- built without a panic, and its `run` returns with fuel 6 and after 6 attempts at most, although `stop::never` does not stop,
    -- where the floating-point type behaves as binary64 does on scaled powers of two. The clock is
    -- ready after its first reading.
    fetch_retry-total :
        (w : World)
        → Ready (clock.now w).1
        → (clock.now w).0 + budget ≤ Duration.max
        → (self : Retry World ℕ String (Result ℕ String)) × (fetch_retry f system operation clock
            ≡ some self)
          × (g : Finished ℕ String (Result ℕ String)) × ((run 6 self w).0 ≡ some g)
          × (g.1.attempts ≤ 6)
    unfolding fetch_retry retry from_op from_parts attempts with_wait with_stop with_clock
        with_timeout
    fetch_retry-total w ready fits =
        let (g, e) =
          run_timeout-total (fetching operation clock) Ready coherent fetching-Moves budget
            initial_backoff refl (omega arith) backoff-ge w ready fits in
        (fetching operation clock, refl, g, e, run-le (fetching operation clock) 6 w g e)
