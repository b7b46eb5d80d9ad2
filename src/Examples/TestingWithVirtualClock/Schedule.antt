-- ===== src/Examples/TestingWithVirtualClock/Schedule.antt =====
-- The schedule that examples/testing-with-virtual-clock.rs asserts.
use Prim.Native.String.{String}
use tenacious.Prelude.{
  ℕ, suc, ◌+◌, ◌-◌, ◌*◌, ◌^◌, ◌≤◌, ◌<◌, min, List, [], ◌∷◌, ◌++◌, false, ◌≡◌, refl, ap, ◌∙◌, arith,
  some, Result, err, pure, Ref, IsCell,
}
use mathlib.Core.List.{append_assoc}
use tenacious.Duration
use tenacious.Duration.{Duration, saturating_add}
use tenacious.Float.{Float, IsIeee}
use tenacious.Decision.{default_classifier, result_outcome}
use tenacious.Stop.{attempts, never}
use tenacious.Clock.{SyncClock}
use tenacious.Clock.Virtual
use tenacious.Clock.Virtual.{VirtualClock, sync_clock, record_wait}
use tenacious.Clock.Virtual.Laws.{record_wait-get}
use tenacious.Engine.Hooks
use tenacious.Engine.Error.{RetryError}
use tenacious.Engine.Sync.{Retry, Cursor, Finished, next_cursor, loop, run}
use tenacious.Engine.Sync.Builder.{
  retry, from_op, from_parts, with_stop, with_wait, with_clock, with_timeout,
}
use tenacious.Engine.Sync.Failing.{Failing, loop-suc, loop-last}
use tenacious.Examples.TestingWithVirtualClock.{initial_backoff, backoff_cap, budget, fetch_retry}
use tenacious.Examples.TestingWithVirtualClock.Budget.{fetching, backoff-eq}

clock_eq :
    (a b : Duration) (xs ys : List Duration)
    → a ≡ b
    → xs ≡ ys
    → ◌≡◌ {A = VirtualClock} (record { now = a; waits = xs }) (record { now = b; waits = ys })
clock_eq a b xs ys p q = rw (p, q) refl

module _ {World : Type 0} (f : Float) (ieee : IsIeee f) (cell : Ref World VirtualClock)
    (lawful : IsCell cell) (e : String) where
  abbrev self : Retry World ℕ String (Result ℕ String)
  self = fetching f ieee (pure (err e)) (sync_clock cell)

  -- What the backoff asks for after the `k`th attempt.
  abbrev asks : ℕ → Duration
  asks k = min (min (initial_backoff * 2 ^ (k - 1)) Duration.max) backoff_cap

  self-Failing : Failing cell (err e) (err e) (λ k. false) asks budget self
  unfolding never default_classifier result_outcome sync_clock Virtual.now Hooks.new
  self-Failing = record {
    op = λ state w. refl;
    classifier = λ w. refl;
    stop = λ state w. refl;
    wait = λ state w. backoff-eq f ieee state w;
    now = λ w. refl;
    sleep = λ d w. refl;
    before_attempt = λ view w. refl;
    after_attempt = λ view w. refl;
    on_exit = λ view w. refl;
    timeout = refl;
  }

  -- A round that waits.
  waits :
      (fuel : ℕ) (origin : Duration) (c : Cursor) (w : World) (passed next : Duration)
      → (cell.get w).now - origin ≡ passed
      → passed < budget
      → asks c.attempt ≡ next
      → 1 ≤ next
      → let delay = min next (budget - passed) in
        loop (suc fuel) self origin c w
        ≡ loop fuel self origin
            (next_cursor c delay (saturating_add c.total_wait delay))
            (record_wait cell delay w).1
  waits fuel origin c w passed next since early asked pos =
      loop-suc cell (err e) (err e) (λ k. false) asks budget self self-Failing fuel origin c w
        passed next since early refl asked pos

  -- The clock after a wait, as long as it can show it.
  waited :
      (d : Duration) (w : World)
      → (cell.get w).now + d ≤ Duration.max
      → cell.get (record_wait cell d w).1
        ≡ record { now = (cell.get w).now + d; waits = (cell.get w).waits ++ (d ∷ []) }
  waited d w le =
      let kept : saturating_add (cell.get w).now d ≡ (cell.get w).now + d = omega arith in
      record_wait-get cell lawful d w
      ∙ ap (λ (t : ℕ). record { now = t; waits = (cell.get w).waits ++ (d ∷ []) }) kept

  -- The schedule that the example asserts, from every world: on a virtual clock in a lawful cell that
  -- can show the end of the budget, with an operation that always fails with `e`, the retry of
  -- `fetch_with_retries` is built without a panic and its `run` returns with fuel 4, after 4 attempts,
  -- `Exhausted` with that error. The clock has recorded waits of 100 ms, 200 ms and, cut to what is
  -- left of the budget, 100 ms, and it shows the budget of 400 ms later than before. The
  -- floating-point type is to behave as binary64 does on scaled powers of two.
  pub fetch_retry-schedule :
      (system : SyncClock World) (w : World)
      → (cell.get w).now + budget ≤ Duration.max
      → (built : Retry World ℕ String (Result ℕ String)) × (fetch_retry f system
            (pure (err e))
            (sync_clock cell)
          ≡ some built)
        × (g : Finished ℕ String (Result ℕ String)) × (w' : World) × (run 4 built w ≡ (some g, w'))
        × (g.0 ≡ err (RetryError.exhausted (err e)))
        × (g.1.attempts ≡ 4)
        × (cell.get w' ≡ record {
          now = (cell.get w).now + budget;
          waits = (cell.get w).waits ++ (100_000_000 ∷ 200_000_000 ∷ 100_000_000 ∷ []);
        })
  unfolding run fetch_retry retry from_op from_parts attempts with_wait with_stop with_clock
      with_timeout sync_clock Virtual.now
  fetch_retry-schedule system w fits =
      let origin = (cell.get w).now in
      let w1 = (record_wait cell 100_000_000 w).1 in
      let w2 = (record_wait cell 200_000_000 w1).1 in
      let w3 = (record_wait cell 100_000_000 w2).1 in
      let at1 = waited 100_000_000 w (omega arith) in
      let now1 = ap (λ k. k.now) at1 in
      let at2 = waited 200_000_000 w1 (omega arith) in
      let now2 = ap (λ k. k.now) at2 in
      let at3 = waited 100_000_000 w2 (omega arith) in
      let now3 = ap (λ k. k.now) at3 in
      let all_waits : (cell.get w2).waits ++ (100_000_000 ∷ [])
          ≡ (cell.get w).waits ++ (100_000_000 ∷ 200_000_000 ∷ 100_000_000 ∷ []) =
        rw (at2, at1) (simp append_assoc) in
      (
        self,
        refl,
        _,
        w3,
        waits 3 origin _ w 0 100_000_000 (omega arith) (omega arith) refl (omega arith)
            ∙ waits 2 origin _ w1 100_000_000 200_000_000 (omega arith) (omega arith) refl
                (omega arith)
            ∙ waits 1 origin _ w2 300_000_000 400_000_000 (omega arith) (omega arith) refl
                (omega arith)
            ∙ loop-last cell (err e) (err e) (λ k. false) asks budget self self-Failing 0 origin _
                w3 (omega arith),
        refl,
        refl,
        at3 ∙ clock_eq _ _ _ _ (omega arith) all_waits,
      )
