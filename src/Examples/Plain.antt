-- ===== src/Examples/Plain.antt =====
-- The retries of examples/: a number of attempts, a fixed wait, no hooks and no timeout.
use tenacious.Prelude.{ℕ, suc, ◌-◌, ◌≤◌, Option, none, some, Result, ◌≡◌, refl, sym, ap, Ref}
use mathlib.Core.Path.{subst}
use tenacious.Duration.{Duration}
use tenacious.State.{RetryState}
use tenacious.Decision.{Decide, Verdict}
use tenacious.Stop.{after_attempts}
use tenacious.Wait.Strategies.{fixed, fixed_wait}
use tenacious.Clock.{SyncClock}
use tenacious.Clock.Virtual.{VirtualClock, sync_clock, record_wait}
use tenacious.Engine.Hooks
use tenacious.Engine.Error.{RetryError}
use tenacious.Engine.Op.{RetryOp}
use tenacious.Engine.Sync.{Retry, u32_max, run, call}
use tenacious.Engine.Sync.Spec.{Answer, resolve, Onto, Meets}
use tenacious.Engine.Sync.Spec.Refinement.{run-Meets}

-- No operation but its own undoes what holds before a call.
pub record Undisturbed {World R A O : Type 0} (Before : ℕ → World → Type 0)
    (classifier : Decide World R A O) (clock : SyncClock World) : Type 0 where
  pub classifier_onto : (outcome : O) (w : World) → Onto Before w (classifier outcome w).1
  pub now_onto : (w : World) → Onto Before w (clock.now w).1
  pub wait_onto : (delay : Duration) (w : World) → Onto Before w (clock.wait delay w).1

module _ {World R A O : Type 0} (op : RetryOp World O) (classifier : Decide World R A O) (n : ℕ)
    (delay : Duration) (clock : SyncClock World) where
  abbrev pub plain : Retry World R A O
  plain = record {
    op = op;
    classifier = classifier;
    stop = after_attempts (record { max = n });
    wait = fixed_wait (fixed delay);
    clock = clock;
    hooks = Hooks.new;
    timeout = none;
  }

  pub plain-Meets :
      (Before : ℕ → World → Type 0) (classify : O → Verdict R A O) (outcomes : ℕ → O) (w : World)
      → ((outcome : O) (v : World) → (classifier outcome v).0 ≡ classify outcome)
      → Undisturbed Before classifier clock
      → ((k : ℕ) (state : RetryState) (v : World)
          → Before k v
          → ((op state v).0 ≡ outcomes k) × Before (suc k) (op state v).1)
      → 1 ≤ n
      → n ≤ u32_max
      → Before 1 w
      → Meets Before (run n plain w) (resolve classify outcomes (n - 1) 1)
  unfolding after_attempts fixed_wait Hooks.new
  plain-Meets Before classify outcomes w classified calm delivered pos small fresh =
      run-Meets plain classify outcomes Before
        record {
          classified = classified;
          delivered = λ state v here. delivered state.attempt state v here;
          now = calm.now_onto;
          sleep = calm.wait_onto;
          rest = record {
            classifier = calm.classifier_onto;
            stop = λ state v k here. here;
            wait = λ state v k here. here;
            before_attempt = λ view v k here. here;
            after_attempt = λ view v k here. here;
            on_exit = λ view v k here. here;
          };
        }
        n small (λ state v. refl) refl w pos fresh

module _ {World R A O : Type 0} (Before : ℕ → World → Type 0) where
  -- What `call` gives is the answer, and the operation has been called as often as the answer says.
  abbrev pub Answers : Option (Result R (RetryError A O)) × World → Answer R A O → Type 0
  Answers called answer = (called.0 ≡ some answer.0) × Before (suc answer.1) called.1

  pub call-Answers :
      (self : Retry World R A O) (n : ℕ) (w : World) (answer : Answer R A O)
      → Meets Before (run n self w) answer
      → Answers (call n self w) answer
  unfolding call
  call-Answers self n w answer (f, e, result, count, after) = (rw e (ap some result), after)

-- A virtual clock in a cell of its own.
pub virtual-Undisturbed :
    {World R A O : Type 0} (Before : ℕ → World → Type 0) (classifier : Decide World R A O)
    (cell : Ref World VirtualClock)
    → ((outcome : O) (w : World) → (classifier outcome w).1 ≡ w)
    → ((c : VirtualClock) (w : World) → Onto Before w (cell.set c w))
    → Undisturbed Before classifier (sync_clock cell)
unfolding sync_clock record_wait
virtual-Undisturbed Before classifier cell quiet apart = record {
  classifier_onto = λ outcome w k here. subst (Before k) (sym (quiet outcome w)) here;
  now_onto = λ w k here. here;
  wait_onto = λ delay w k here. apart _ _ k (apart _ w k here);
}
