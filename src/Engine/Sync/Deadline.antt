-- ===== src/Engine/Sync/Deadline.antt =====
-- The timeout of src/engine/mod.rs on the virtual clock of src/clock.rs.
use tenacious.Prelude.{
  ℕ, ◌+◌, ◌≤◌, min, Bool-cases, inl, inr, ◌≡◌, ◌∙◌, refl, ap, some, ◌==◌, arith,
}
use tenacious.Prelude.{Ref, IsCell}
use mathlib.Core.Path.{subst}
use tenacious.Duration
use tenacious.Duration.{Duration}
use tenacious.State.{RetryState}
use tenacious.Clock.Virtual.{VirtualClock, sync_clock}
use tenacious.Clock.Virtual
use tenacious.Clock.Virtual.Laws.{record_wait-get}
use tenacious.Engine.Step.{stats_for}
use tenacious.Engine.Step.Laws.{WithinBudget}
use tenacious.Engine.Sync.{Retry, Cursor, Finished, start, round, run, elapsed, before_state}
use tenacious.Engine.Sync.Rules.{slept, loop_inv}
use tenacious.Engine.Sync.Outcome.{at_return, post_elapsed, round-done, round-again}
use tenacious.Engine.Sync.Builder.{with_clock}
use tenacious.Engine.Sync.Frame.{Steady, after_return-Rel}

module _ {World : Type 0} (cell : Ref World VirtualClock) where
  -- The clock in the cell stands still.
  abbrev pub Stands : World → World → Type 0
  Stands w v = (cell.get v).now ≡ (cell.get w).now

  -- A call of the operation takes no longer than `longest` and does not turn the clock back from what
  -- it can show, and no other part moves it.
  pub record Takes {R A O : Type 0} (longest : Duration) (self : Retry World R A O) : Type 0 where
    pub forward :
        (state : RetryState) (w : World)
        → min (cell.get w).now Duration.max ≤ (cell.get (self.op state w).1).now
    pub bounded :
        (state : RetryState) (w : World)
        → (cell.get (self.op state w).1).now ≤ (cell.get w).now + longest
    pub rest : Steady Stands self

module _ {World R A O : Type 0} (cell : Ref World VirtualClock) (lawful : IsCell cell)
    (self : Retry World R A O) (longest : Duration)
    (takes : Takes cell longest (with_clock (sync_clock cell) self)) where
  abbrev on_virtual : Retry World R A O
  on_virtual = with_clock (sync_clock cell) self

  -- Between the origin and the deadline, or not much later.
  abbrev InTime : Duration → Duration → World → Type 0
  InTime origin t w = (origin ≤ (cell.get w).now) × ((cell.get w).now ≤ origin + t)

  returned-InTime :
      (origin t : Duration) (c : Cursor) (w : World)
      → origin ≤ Duration.max
      → InTime origin t w
      → InTime origin (t + longest) (at_return on_virtual origin c w)
  unfolding elapsed sync_clock with_clock Virtual.now
  returned-InTime origin t c w small (low, high) =
      let view = before_state c (Duration.saturating_sub (cell.get w).now origin) in
      let still = takes.rest.before_attempt view w in
      let ready = (self.hooks.before_attempt view w).1 in
      let on = takes.forward view ready in
      let over = takes.bounded view ready in (omega arith, omega arith)

  post_elapsed-eq :
      (origin : Duration) (c : Cursor) (w : World)
      → post_elapsed on_virtual origin c w
        ≡ Duration.saturating_sub (cell.get (at_return on_virtual origin c w)).now origin
  unfolding elapsed sync_clock with_clock Virtual.now
  post_elapsed-eq origin c w = refl

  after_return-eq :
      (origin : Duration) (c : Cursor) (w : World)
      → Stands cell (at_return on_virtual origin c w) (round on_virtual origin c w).1
  unfolding sync_clock with_clock Virtual.now
  after_return-eq =
      after_return-Rel (Stands cell) (λ _ _ _ p q. q ∙ p) on_virtual takes.rest (λ w. refl)

  slept-InTime :
      (origin t delay : Duration) (w : World)
      → origin ≤ Duration.max
      → origin ≤ (cell.get w).now
      → Duration.saturating_sub (cell.get w).now origin + delay ≤ t
      → InTime origin t (slept (sync_clock cell) delay w)
  unfolding sync_clock
  slept-InTime origin t delay w small low within = elim (Bool-cases (delay == 0)) [
    | inl z ↦ rw (slept, z) (low, omega arith)
    | inr pos ↦ rw (slept, pos, record_wait-get cell lawful) (omega arith, omega arith)
  ]

  -- A timeout bounds the whole run, up to the last call of the operation, which it does not
  -- interrupt. On a virtual clock in a lawful cell, which shows `Duration::MAX` at most and which only
  -- the loop's own sleeps and the operation move, the operation by `longest` at most in each call and
  -- not back: with the timeout `t`, when `run` returns, no more than `t + longest` has passed since it
  -- began, and the `total_elapsed` in the stats is at most that.
  pub run_timeout-le :
      (fuel : ℕ) (w : World) (t : Duration) {f : Finished R A O}
      → (cell.get w).now ≤ Duration.max
      → self.timeout ≡ some t
      → (run fuel on_virtual w).0 ≡ some f
      → ((cell.get (run fuel on_virtual w).1).now ≤ (cell.get w).now + (t + longest))
        × (f.1.total_elapsed ≤ t + longest)
  unfolding run stats_for with_clock sync_clock Virtual.now
  run_timeout-le fuel w t {f} small limit h =
      let origin = (cell.get w).now in
      loop_inv on_virtual origin (λ c v. InTime origin t v)
        (λ g v. ((cell.get v).now ≤ origin + (t + longest)) × (g.1.total_elapsed ≤ t + longest))
        (λ c v delay running p went.
          let still = after_return-eq origin c v in
          let seen = post_elapsed-eq origin c v in
          let back = returned-InTime origin t c v small p in
          let budget =
            subst (λ o. WithinBudget o (post_elapsed on_virtual origin c v) delay) limit
              (round-again on_virtual origin c v went).1 in
          slept-InTime origin t delay (round on_virtual origin c v).1 small (omega arith)
            (omega arith))
        (λ c v result stats p ended.
          let still = after_return-eq origin c v in
          let seen = post_elapsed-eq origin c v in
          let back = returned-InTime origin t c v small p in
          let counted = ap (λ s. s.total_elapsed) (round-done on_virtual origin c v ended).0 in
          (omega arith, omega arith))
        fuel start w f (omega arith, omega arith) h
