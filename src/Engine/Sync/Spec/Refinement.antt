-- ===== src/Engine/Sync/Spec/Refinement.antt =====
-- The loop of src/engine/mod.rs against its specification.
use tenacious.Prelude.{
  ℕ, zero, suc, ◌+◌, ◌-◌, ◌≤◌, ◌<◌, min, Option, none, err, ◌≡◌, refl, ap, ◌∙◌, arith, M,
}
use tenacious.Prelude.{leb, le→leb, lt→not_leb, sym, Bool-cases, inl, inr, ◌==◌}
use mathlib.Core.Path.{subst}
use tenacious.State.{RetryState, for_attempt, with_elapsed, with_previous_delay}
use tenacious.Duration.{Duration}
use tenacious.Decision.{Verdict}
use tenacious.Engine.State
use tenacious.Engine.State.{StopReason}
use tenacious.Engine.Error.{RetryError}
use tenacious.Engine.Step.{Progress, step, settle, stats_for, state_of, timeout_exceeded}
use tenacious.Engine.Sync.Rules.{slept}
use tenacious.Engine.Sync.Frame.{settle-Rel}
use tenacious.Engine.Sync.{
  Retry, Cursor, Finished, u32_max, start, next_cursor, elapsed, before_state, progress_of, round,
  resume, loop, run,
}
use tenacious.Engine.Sync.Spec.{Answer, final, early, resolve, Onto, Follows, Meets}

module _ {World R A O : Type 0} (self : Retry World R A O) (classify : O → Verdict R A O)
    (outcomes : ℕ → O) (Before : ℕ → World → Type 0)
    (follows : Follows Before classify outcomes self) where
  onto :
      (p : Progress) (verdict : Verdict R A O) (w : World) (k : ℕ)
      → Before k w
      → Before k (settle p self.stop self.wait self.timeout self.hooks verdict w).1
  onto p verdict w k =
      settle-Rel (Onto Before) (λ u v x a b j q. b j (a j q)) self follows.rest p verdict w k

  slept-Before :
      (delay : Duration) (k : ℕ) (w : World) → Before k w → Before k (slept self.clock delay w)
  slept-Before delay k w here = elim (Bool-cases (delay == 0)) [
    | inl z ↦ rw (slept, z) here
    | inr pos ↦ rw (slept, pos) (follows.sleep delay w k here)
  ]

  round-settle :
      (origin : Duration) (c : Cursor) (w : World)
      → Before c.attempt w
      → (p : Progress) × (w' : World) × (p.attempt ≡ c.attempt)
        × (round self origin c w
            ≡ settle p self.stop self.wait self.timeout self.hooks
                (classify (outcomes c.attempt))
                w')
        × Before (suc c.attempt) w'
  unfolding round step State.new for_attempt with_elapsed with_previous_delay elapsed
  round-settle origin c w here =
      let k = c.attempt in
      let began = elapsed self.clock.now origin w in
      let ready = self.hooks.before_attempt (before_state c began.0) began.1 in
      let at_call =
        follows.rest.before_attempt (before_state c began.0) began.1 k (follows.now w k here) in
      let returned = self.op (before_state c began.0) ready.1 in
      let (delivered, called) = follows.delivered (before_state c began.0) ready.1 at_call in
      let read = elapsed self.clock.now origin returned.1 in
      let p = progress_of c read.0 in
      let hooked = (self.hooks.after_attempt (State.new p.attempt p.elapsed returned.0) read.1).1 in
      let judged = self.classifier returned.0 hooked in
      (
        p,
        judged.1,
        refl,
        ap (λ verdict. settle p self.stop self.wait self.timeout self.hooks verdict judged.1)
            (follows.classified returned.0 hooked ∙ ap classify delivered),
        follows.rest.classifier returned.0 hooked (suc k)
            (follows.rest.after_attempt _ read.1 (suc k) (follows.now returned.1 (suc k) called)),
      )

  module _ (n : ℕ) (small : n ≤ u32_max)
      (stops : (state : RetryState) (w : World) → (self.stop state w).0 ≡ leb n state.attempt)
      (unlimited : self.timeout ≡ none) where
    final-Meets :
        (go : Cursor → M World (Option (Finished R A O))) (c : Cursor) (p : Progress)
        (verdict : Verdict R A O) (w : World)
        → p.attempt ≡ c.attempt
        → c.attempt ≡ n
        → Before (suc c.attempt) w
        → let t = settle p self.stop self.wait self.timeout self.hooks verdict w in
          Meets Before (resume go self.clock c t.0 t.1) (final verdict c.attempt)
    unfolding settle resume timeout_exceeded stats_for state_of
    final-Meets go c p (Verdict.accept value) w e last called =
        (_, refl, refl, e, onto p (Verdict.accept value) w (suc c.attempt) called)
    final-Meets go c p (Verdict.abort a) w e last called =
        (_, refl, refl, e, onto p (Verdict.abort a) w (suc c.attempt) called)
    final-Meets go c p (Verdict.retry o) w e last called =
        let over = stops (state_of p) w ∙ le→leb n p.attempt (omega arith) in
        let stopped = follows.rest.stop (state_of p) w (suc c.attempt) called in
        (
          (err (RetryError.exhausted o), stats_for p StopReason.exhausted),
          rw over refl,
          refl,
          e,
          rw over (follows.rest.on_exit _ _ (suc c.attempt) stopped),
        )

    early-Meets :
        (go : Cursor → M World (Option (Finished R A O))) (c : Cursor) (p : Progress)
        (verdict : Verdict R A O) (w : World) (rest : Answer R A O)
        → ((delay running : Duration) (v : World)
            → Before (suc c.attempt) v
            → Meets Before (go (next_cursor c delay running) v) rest)
        → p.attempt ≡ c.attempt
        → c.attempt < n
        → Before (suc c.attempt) w
        → let t = settle p self.stop self.wait self.timeout self.hooks verdict w in
          Meets Before (resume go self.clock c t.0 t.1) (early verdict c.attempt rest)
    unfolding settle resume timeout_exceeded stats_for state_of
    early-Meets go c p (Verdict.accept value) w rest more e before called =
        (_, refl, refl, e, onto p (Verdict.accept value) w (suc c.attempt) called)
    early-Meets go c p (Verdict.abort a) w rest more e before called =
        (_, refl, refl, e, onto p (Verdict.abort a) w (suc c.attempt) called)
    early-Meets go c p (Verdict.retry o) w rest more e before called =
        let not_yet = stops (state_of p) w ∙ lt→not_leb n p.attempt (omega arith) in
        let stopped = follows.rest.stop (state_of p) w (suc c.attempt) called in
        let waited = follows.rest.wait (state_of p) _ (suc c.attempt) stopped in
        rw (not_yet, unlimited) (more _ _ _ (slept-Before _ (suc c.attempt) _ waited))

    loop-Meets :
        (origin : Duration) (more fuel : ℕ) (c : Cursor) (w : World)
        → c.attempt + more ≡ n
        → more < fuel
        → Before c.attempt w
        → Meets Before (loop fuel self origin c w) (resolve classify outcomes more c.attempt)
    unfolding loop
    loop-Meets origin more zero c w total enough here = absurd (omega arith)
    loop-Meets origin zero (suc fuel) c w total enough here =
        let (p, w', e, h, called) = round-settle origin c w here in
        rw h (
          final-Meets (loop fuel self origin) c p (classify (outcomes c.attempt)) w' e (omega arith)
            called)
    loop-Meets origin (suc more) (suc fuel) c w total enough here =
        let (p, w', e, h, called) = round-settle origin c w here in
        let later : (delay running : Duration) (v : World)
            → Before (suc c.attempt) v
            → Meets Before (loop fuel self origin (next_cursor c delay running) v)
                (resolve classify outcomes more (suc c.attempt)) =
          λ delay running v next.
            let counted : min (c.attempt + 1) u32_max ≡ suc c.attempt = omega arith in
            subst
              (λ k.
                Meets Before (loop fuel self origin (next_cursor c delay running) v)
                  (resolve classify outcomes more k))
              counted
              (loop-Meets origin more fuel (next_cursor c delay running) v (omega arith)
                (omega arith) (subst (λ k. Before k v) (sym counted) next)) in
        rw h (
          early-Meets (loop fuel self origin) c p (classify (outcomes c.attempt)) w'
            (resolve classify outcomes more (suc c.attempt)) later e (omega arith) called)

    -- The loop refines its specification, also where the operation has a state. Suppose that the
    -- operation, called for the `k`th time, has the `k`th outcome, as long as `Before k` holds of the
    -- world, that this call makes `Before (k + 1)` hold and that no other part disturbs it, that the
    -- classifier's verdicts depend on the outcome alone, that the stop strategy stops from the `n`th
    -- attempt on and not before, with `n` a `u32` that is not 0, and that there is no timeout. Then
    -- `run` returns with fuel `n` from every world where `Before 1` holds, its result and its number
    -- of attempts are the answer of the specification, and in the end the operation has been called
    -- that many times and no more: `Before` holds for the next number.
    pub run-Meets :
        (w : World)
        → 1 ≤ n
        → Before 1 w
        → Meets Before (run n self w) (resolve classify outcomes (n - 1) 1)
    unfolding run
    run-Meets w pos fresh =
        let began = self.clock.now w in
        loop-Meets began.0 (n - 1) n start began.1 (omega arith) (omega arith)
          (follows.now w 1 fresh)
