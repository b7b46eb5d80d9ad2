-- ===== src/Engine/Sync/Spec/Stateless.antt =====
-- The specification of the loop of src/engine/mod.rs for an operation without a state.
use tenacious.Prelude.{ℕ, ◌-◌, ◌≤◌, none, some, ◌≡◌}
use tenacious.Prelude.{leb}
use tenacious.State.{RetryState}
use tenacious.Decision.{Verdict}
use tenacious.Engine.Sync.{Retry, Finished, u32_max, run}
use tenacious.Engine.Sync.Spec.{resolve, Follows}
use tenacious.Engine.Sync.Spec.Refinement.{run-Meets}

module _ {World R A O : Type 0} (self : Retry World R A O) (classify : O → Verdict R A O)
    (outcomes : ℕ → O)
    (classified : (outcome : O) (w : World) → (self.classifier outcome w).0 ≡ classify outcome)
    (delivered : (state : RetryState) (w : World)
      → (self.op state w).0 ≡ outcomes state.attempt) where
  pub stateless-Follows : Follows (λ k w. Unit) classify outcomes self
  stateless-Follows = record {
    classified = classified;
    delivered = λ state w _. (delivered state w, tt);
    now = λ w k _. tt;
    sleep = λ delay w k _. tt;
    rest = record {
      classifier = λ outcome w k _. tt;
      stop = λ state w k _. tt;
      wait = λ state w k _. tt;
      before_attempt = λ view w k _. tt;
      after_attempt = λ view w k _. tt;
      on_exit = λ view w k _. tt;
    };
  }

  module _ (n : ℕ) (small : n ≤ u32_max)
      (stops : (state : RetryState) (w : World) → (self.stop state w).0 ≡ leb n state.attempt)
      (unlimited : self.timeout ≡ none) where
    -- The loop refines its specification. Suppose that the classifier's verdicts and the operation's
    -- outcomes depend on the outcome and on the number of the attempt alone, that the stop strategy
    -- stops from the `n`th attempt on and not before, with `n` a `u32` that is not 0, and that there
    -- is no timeout. Then `run` returns with fuel `n`, from every world and for every clock, wait
    -- strategy and hooks, and its result and its number of attempts are the answer of the
    -- specification: the first verdict among `n` attempts that is not `Retry`, or else `Exhausted`
    -- with the outcome of the `n`th.
    run-resolve :
        (w : World)
        → 1 ≤ n
        → (f : Finished R A O) × ((run n self w).0 ≡ some f)
          × (f.0 ≡ (resolve classify outcomes (n - 1) 1).0)
          × (f.1.attempts ≡ (resolve classify outcomes (n - 1) 1).1)
    run-resolve w pos =
        let (f, e, result, count, _) =
          run-Meets self classify outcomes (λ k v. Unit) stateless-Follows n small stops unlimited w
            pos tt in
        (f, e, result, count)
