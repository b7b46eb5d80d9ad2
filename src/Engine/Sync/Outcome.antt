-- ===== src/Engine/Sync/Outcome.antt =====
-- How the loop of src/engine/mod.rs ends: that it does, after how many attempts, and with what.
use tenacious.Prelude.{ℕ, ◌≤◌, ◌<◌, some, Result, ◌≡◌, refl, arith, sym, ap}
use mathlib.Core.Path.{subst}
use tenacious.Duration.{Duration, saturating_add}
use tenacious.State.{RetryState, for_attempt, with_elapsed, with_previous_delay}
use tenacious.Decision.{Verdict}
use tenacious.Stop.{StopsBy}
use tenacious.Engine.Stats.{RetryStats}
use tenacious.Engine.Error.{RetryError}
use tenacious.Engine.Step.{Step, stats_for}
use tenacious.Engine.Step.Laws.{
  reason_of, verdict_of, WithinBudget, step-done, step-again, step-verdict, step_again-lt,
}
use tenacious.Engine.Sync.{
  Retry, Cursor, Finished, u32_max, start, before_state, progress_of, elapsed, round, run,
}
use tenacious.Engine.Sync.Rules.{loop_inv, loop_total}

module _ {World R A O : Type 0} (self : Retry World R A O) where
  -- A call of the operation as the `n`th attempt has an outcome on which the classifier gives the
  -- verdict.
  abbrev pub Attempted : ℕ → Verdict R A O → Type 0
  Attempted n verdict =
      (state : RetryState) × (w : World) × (w' : World) × (state.attempt ≡ n)
      × ((self.classifier (self.op state w).0 w').0 ≡ verdict)

  module _ (origin : Duration) (c : Cursor) (w : World) where
    -- The readings and worlds of a round.
    abbrev pub began : Duration
    began = (elapsed self.clock.now origin w).0

    abbrev pub at_call : World
    at_call =
        (self.hooks.before_attempt (before_state c began) (elapsed self.clock.now origin w).1).1

    abbrev pub at_return : World
    at_return = (self.op (before_state c began) at_call).1

    abbrev pub post_elapsed : Duration
    post_elapsed = (elapsed self.clock.now origin at_return).0

    pub round-done :
        {result : Result R (RetryError A O)} {stats : RetryStats}
        → (round self origin c w).0 ≡ Step.done result stats
        → (stats ≡ stats_for (progress_of c post_elapsed) (reason_of result))
          × Attempted c.attempt (verdict_of result)
    unfolding round for_attempt with_elapsed with_previous_delay
    round-done h =
        let (w', e) = step-verdict _ _ _ _ _ _ _ _ h in
        (step-done _ _ _ _ _ _ _ _ h, (before_state c began, at_call, w', refl, e))

    pub round-again :
        {delay running : Duration}
        → (round self origin c w).0 ≡ Step.again delay running
        → (running ≡ saturating_add c.total_wait delay)
          × WithinBudget self.timeout post_elapsed delay
    unfolding round
    round-again h = step-again _ _ _ _ _ _ _ _ h

    round_again-lt :
        (n : ℕ)
        → StopsBy n self.stop
        → {delay running : Duration} → (round self origin c w).0 ≡ Step.again delay running
        → c.attempt < n
    unfolding round
    round_again-lt n by h = step_again-lt n _ _ _ _ _ _ _ _ by h

  -- If the stop strategy stops at the `n`th attempt at the latest, with `n` a `u32` that is not 0,
  -- then fuel `n` is enough for `run` to return, in every world and for all other parts of the
  -- builder, and the stats count between 1 and `n` attempts.
  pub run_total :
      (n : ℕ) (w : World)
      → 1 ≤ n
      → n ≤ u32_max
      → StopsBy n self.stop
      → (f : Finished R A O) × ((run n self w).0 ≡ some f) × (1 ≤ f.1.attempts) × (f.1.attempts ≤ n)
  unfolding run stats_for
  run_total n w pos small by =
      let origin = (self.clock.now w).0 in
      let (f, e) =
        loop_total self origin n small (λ c w' d t h. round_again-lt origin c w' n by h) n start
          (self.clock.now w).1 pos (omega arith) in
      let bounds =
        loop_inv self origin (λ c _. (1 ≤ c.attempt) × (c.attempt ≤ n))
          (λ f _. (1 ≤ f.1.attempts) × (f.1.attempts ≤ n))
          (λ c w' d t p h. let lt = round_again-lt origin c w' n by h in omega arith)
          (λ c w' result stats p h.
            subst (λ s. (1 ≤ s.attempts) × (s.attempts ≤ n)) (sym (round-done origin c w' h).0) p)
          n start (self.clock.now w).1 f (omega arith) e in
      (f, e, bounds.0, bounds.1)

  -- If `run` returns, its result is a verdict on the attempt whose number the stats show: a call of
  -- the operation with that attempt number has an outcome that the classifier answers by
  -- `Return(v)` for `Ok(v)`, by `Abort(a)` for `Aborted`, and by `Retry(o)` for `Exhausted`. The stop
  -- reason in the stats is that of the result.
  pub run-Attempted :
      (fuel : ℕ) (w : World) {f : Finished R A O}
      → (run fuel self w).0 ≡ some f
      → Attempted f.1.attempts (verdict_of f.0) × (f.1.stop_reason ≡ reason_of f.0)
  unfolding run stats_for
  run-Attempted fuel w {f} h =
      loop_inv self _ (λ _ _. Unit {0})
        (λ f _. Attempted f.1.attempts (verdict_of f.0) × (f.1.stop_reason ≡ reason_of f.0))
        (λ c w' d t p e. tt)
        (λ c w' result stats p e.
          let (same, tried) = round-done _ c w' e in
          (
            subst (λ s. Attempted s.attempts (verdict_of result)) (sym same) tried,
            ap (λ s. s.stop_reason) same,
          ))
        fuel start (self.clock.now w).1 f tt h

  -- With a timeout of zero, `run` makes exactly one attempt: fuel 1 is enough in every world, and
  -- the stats count one attempt and no wait.
  run-timeout_zero :
      (w : World)
      → self.timeout ≡ some 0
      → (f : Finished R A O) × ((run 1 self w).0 ≡ some f)
        × (f.1.attempts ≡ 1)
        × (f.1.total_wait ≡ 0)
  unfolding run stats_for
  run-timeout_zero w zero_budget =
      let origin = (self.clock.now w).0 in
      let (f, e) =
        loop_total self origin 1 (omega arith) (λ c w' d t h. absurd (never_again origin c w' h)) 1
          start (self.clock.now w).1 (omega arith) (omega arith) in
      let counts =
        loop_inv self origin (λ c _. (c.attempt ≡ 1) × (c.total_wait ≡ 0))
          (λ f _. (f.1.attempts ≡ 1) × (f.1.total_wait ≡ 0))
          (λ c w' d t p h. absurd (never_again origin c w' h))
          (λ c w' result stats p h.
            subst (λ s. (s.attempts ≡ 1) × (s.total_wait ≡ 0)) (sym (round-done origin c w' h).0) p)
          1 start (self.clock.now w).1 f (refl, refl) e in
      (f, e, counts.0, counts.1)
    where
      never_again :
          (origin : Duration) (c : Cursor) (w' : World) {delay running : Duration}
          → (round self origin c w').0 ≡ Step.again delay running
          → ⊥
      never_again origin c w' {delay} h =
          let within =
            subst (λ t. WithinBudget t (post_elapsed origin c w') delay) zero_budget
              (round-again origin c w' h).1 in
          omega arith
