-- ===== src/Engine/Sync/Defaults.antt =====
-- The retry that src/engine/mod.rs builds without further configuration.
use tenacious.Prelude.{ℕ, suc, ◌-◌, ◌*◌, ◌^◌, min, some, ◌≡◌, refl, arith}
use tenacious.Duration
use tenacious.Duration.{Duration}
use tenacious.State.{RetryState}
use tenacious.Float.{Float, IsIeee}
use tenacious.Decision.{Outcome, default_classifier}
use tenacious.Clock.{SyncClock}
use tenacious.Stop.{attempts, after_attempts}
use tenacious.Wait.Strategies.Exponential.{exponential_wait-eq}
use tenacious.Engine.Hooks
use tenacious.Engine.Op.{RetryOp}
use tenacious.Engine.Sync.{Retry, run}
use tenacious.Engine.Sync.Builder.{from_op, from_parts}
use tenacious.Engine.Sync.Spec.{resolve, Onto, Meets}
use tenacious.Engine.Sync.Spec.Refinement.{run-Meets}

module _ (f : Float) (ieee : IsIeee f) {World R A O : Type 0} where
  -- The default retry is built without a panic. It is three attempts on the values of the outcome's
  -- own `classify`: where the `k`th call of the operation has the `k`th of the outcomes and the
  -- clock leaves the operation's state alone, it returns within three rounds from a world before the
  -- first call, with the first verdict among the three that is not `Retry`, or else `Exhausted` with
  -- the third outcome, after as many calls as that answer has attempts. Its wait after attempt `n`
  -- is `100 ms * 2 ^ (n - 1)`, or `Duration::MAX` if that is less, where the floating-point type
  -- behaves as binary64 does on scaled powers of two.
  pub from_op_total :
      (system : SyncClock World) (outcome : Outcome O R A) (op : RetryOp World O)
      (Before : ℕ → World → Type 0) (outcomes : ℕ → O) (w : World)
      → ((state : RetryState) (v : World)
          → Before state.attempt v
          → ((op state v).0 ≡ outcomes state.attempt) × Before (suc state.attempt) (op state v).1)
      → ((v : World) → Onto Before v (system.now v).1)
      → ((delay : Duration) (v : World) → Onto Before v (system.wait delay v).1)
      → Before 1 w
      → (self : Retry World R A O) × (from_op f system outcome op ≡ some self)
        × Meets Before (run 3 self w) (resolve outcome.classify outcomes 2 1)
        × ((state : RetryState) (v : World)
            → self.wait state v ≡ (min (100_000_000 * 2 ^ (state.attempt - 1)) Duration.max, v))
  unfolding from_op from_parts attempts after_attempts default_classifier Hooks.new
  from_op_total system outcome op Before outcomes w delivered now_onto wait_onto fresh = (
    _,
    refl,
    run-Meets _ outcome.classify outcomes Before
        record {
          classified = λ o v. refl;
          delivered = delivered;
          now = now_onto;
          sleep = wait_onto;
          rest = record {
            classifier = λ o v k here. here;
            stop = λ state v k here. here;
            wait = λ state v k here. here;
            before_attempt = λ view v k here. here;
            after_attempt = λ view v k here. here;
            on_exit = λ view v k here. here;
          };
        }
        3 (omega arith) (λ state v. refl) refl w (omega arith) fresh,
    (λ state v. exponential_wait-eq f ieee 100_000_000 state v (omega arith)),
  )
