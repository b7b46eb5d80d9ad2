-- ===== src/Engine/Sync/Failing.antt =====
-- The loop of src/engine/mod.rs on an operation that fails at once, again and again, under a timeout
-- and on the virtual clock of src/clock.rs.
use tenacious.Prelude.{
  ℕ, zero, suc, ◌+◌, ◌-◌, ◌*◌, ◌≤◌, ◌<◌, min, Bool, true, false, ◌||◌, ◌==◌, ◌≡◌, refl, ap, ◌∙◌,
  arith, some, err, Ref, IsCell, lt→not_leb, le→leb,
}
use tenacious.Duration
use tenacious.Duration.{Duration, saturating_add}
use tenacious.State.{RetryState, for_attempt, with_elapsed, with_previous_delay}
use tenacious.Decision.{Verdict}
use tenacious.Clock.Virtual.{VirtualClock, record_wait}
use tenacious.Clock.Virtual.Laws.{record_wait-get}
use tenacious.Engine.State.{AttemptState, Exit, StopReason}
use tenacious.Engine.Error.{RetryError}
use tenacious.Engine.Step.{step, settle, timeout_exceeded, state_of, stats_for}
use tenacious.Engine.Sync.{
  Retry, Cursor, Finished, u32_max, start, next_cursor, elapsed, round, resume, loop, run,
}

not_zero : (d : ℕ) → 1 ≤ d → (d == 0) ≡ false
not_zero d pos = ground arith

or_true : (b : Bool) → (b || true) ≡ true
or_true true = refl
or_true false = refl

-- What the loop gives when an attempt ends with the budget used up.
abbrev pub given_up : {R A O : Type 0} → O → ℕ → (elapsed total_wait : Duration) → Finished R A O
given_up last attempts elapsed total_wait = (
  err (RetryError.exhausted last),
  record {
    attempts = attempts;
    total_elapsed = elapsed;
    total_wait = total_wait;
    stop_reason = StopReason.exhausted;
  },
)

given_up-eq :
    {R A O : Type 0} (last : O) {a b p q x y : ℕ}
    → a ≡ b
    → p ≡ q
    → x ≡ y
    → given_up {R = R} {A = A} last a p x ≡ given_up last b q y
given_up-eq last e g h = rw (e, g, h) refl

-- A retry whose operation fails at once with `outcome`, which the classifier retries as `last`, with
-- a stop and a wait strategy that look at the attempt only, and no other effect than that of the
-- waits on the clock in the cell.
pub record Failing {World R A O : Type 0} (cell : Ref World VirtualClock) (outcome last : O)
    (stops : ℕ → Bool) (asks : ℕ → Duration) (t : Duration) (self : Retry World R A O)
    : Type 0 where
  pub op : (state : RetryState) (w : World) → self.op state w ≡ (outcome, w)
  pub classifier : (w : World) → self.classifier outcome w ≡ (Verdict.retry last, w)
  pub stop : (state : RetryState) (w : World) → self.stop state w ≡ (stops state.attempt, w)
  pub wait : (state : RetryState) (w : World) → self.wait state w ≡ (asks state.attempt, w)
  pub now : (w : World) → self.clock.now w ≡ ((cell.get w).now, w)
  pub sleep : (d : Duration) (w : World) → self.clock.wait d w ≡ record_wait cell d w
  pub before_attempt : (view : RetryState) (w : World) → self.hooks.before_attempt view w ≡ (tt, w)
  pub after_attempt :
      (view : AttemptState O) (w : World) → self.hooks.after_attempt view w ≡ (tt, w)
  pub on_exit : (view : Exit R A O) (w : World) → self.hooks.on_exit view w ≡ (tt, w)
  pub timeout : self.timeout ≡ some t

module _ {World R A O : Type 0} (cell : Ref World VirtualClock) (outcome last : O)
    (stops : ℕ → Bool) (asks : ℕ → Duration) (t : Duration) (self : Retry World R A O)
    (failing : Failing cell outcome last stops asks t self) where
  -- An attempt that leaves some of the budget is followed by a wait.
  pub loop-suc :
      (fuel : ℕ) (origin : Duration) (c : Cursor) (w : World) (passed next : Duration)
      → (cell.get w).now - origin ≡ passed
      → passed < t
      → stops c.attempt ≡ false
      → asks c.attempt ≡ next
      → 1 ≤ next
      → let delay = min next (t - passed) in
        loop (suc fuel) self origin c w
        ≡ loop fuel self origin
            (next_cursor c delay (saturating_add c.total_wait delay))
            (record_wait cell delay w).1
  unfolding loop round resume step settle timeout_exceeded elapsed state_of for_attempt with_elapsed
      with_previous_delay
  loop-suc fuel origin c w passed next since early on asked pos =
      let late = lt→not_leb t passed early in
      let positive = not_zero (min next (t - passed)) (omega arith) in
      rw
        (
          failing.now, failing.before_attempt, failing.op, failing.now, failing.after_attempt,
          failing.classifier, failing.stop, failing.timeout, on, since, late, failing.wait, asked,
          positive, failing.sleep,
        )
        refl

  -- An attempt that ends with the budget used up is the last.
  pub loop-last :
      (fuel : ℕ) (origin : Duration) (c : Cursor) (w : World)
      → t ≤ (cell.get w).now - origin
      → loop (suc fuel) self origin c w
        ≡ (some (given_up last c.attempt ((cell.get w).now - origin) c.total_wait), w)
  unfolding loop round resume step settle timeout_exceeded elapsed state_of for_attempt with_elapsed
      with_previous_delay stats_for
  loop-last fuel origin c w le =
      let over = le→leb t ((cell.get w).now - origin) le in
      rw
        (
          failing.now, failing.before_attempt, failing.op, failing.now, failing.after_attempt,
          failing.classifier, failing.stop, failing.timeout, over, or_true, failing.on_exit,
        )
        refl

  module _ (lawful : IsCell cell) (d limit origin : Duration) (pos : 1 ≤ d)
      (small : limit ≤ u32_max) (fits : origin + t ≤ Duration.max)
      (goes_on : (k : ℕ) → k < limit → stops k ≡ false) (fixed : (k : ℕ) → asks k ≡ d) where
    -- `m` waits of `d` are left, and `r` of the budget.
    loop-eq :
        (m fuel : ℕ) (c : Cursor) (w : World) (r : Duration)
        → m < fuel
        → r ≤ t
        → r ≤ m * d
        → m * d < r + d
        → (cell.get w).now ≡ origin + (t - r)
        → c.total_wait ≡ t - r
        → c.attempt + m ≤ limit
        → (w' : World) × (loop fuel self origin c w
            ≡ (some (given_up last (c.attempt + m) t t), w'))
          × ((cell.get w').now ≡ origin + t)
    loop-eq m zero c w r enough le cover tight at total below = absurd (omega arith)
    loop-eq zero (suc fuel) c w r enough le cover tight at total below = (
      w,
      loop-last fuel origin c w (omega arith)
          ∙ ap (λ (g : Finished R A O). (some g, w))
              (given_up-eq last (omega arith) (omega arith) (omega arith)),
      omega arith,
    )
    loop-eq (suc m) (suc fuel) c w r enough le cover tight at total below =
        let one_more : suc m * d ≡ m * d + d = omega arith in
        let delay = min d (t - (t - r)) in
        let total' = saturating_add c.total_wait delay in
        let slept = record_wait-get cell lawful delay w in
        let now' = ap (λ k. k.now) slept in
        let (w', e, shown) =
          loop-eq m fuel (next_cursor c delay total') (record_wait cell delay w).1 (r - delay)
            (omega arith) (omega arith) (omega arith) (omega arith) (omega arith) (omega arith)
            (omega arith) in
        (
          w',
          loop-suc fuel origin c w (t - r) d (omega arith) (omega arith)
                (goes_on c.attempt (omega arith)) (fixed c.attempt) pos
              ∙ e
              ∙ ap (λ (g : Finished R A O). (some g, w'))
                  (given_up-eq last (omega arith) refl refl),
          shown,
        )

  -- How often an operation that fails at once is tried under a timeout with a fixed wait. Suppose that
  -- the wait is `d`, not 0, that the timeout is `t`, and that `n` is the number of waits that covers
  -- it: `n * d` is `t` at least, and `(n - 1) * d` is not. If the stop strategy lets `n` attempts go
  -- on, the attempt numbers fit in a `u32` and the clock can show the deadline, then `run` returns
  -- with fuel `n + 1`, after `n + 1` attempts, `Exhausted` with the last outcome. The waits add up to
  -- the timeout, the last one cut to what was left of it, and the clock ends at the deadline.
  pub run_failing-eq :
      (lawful : IsCell cell) (d n limit : ℕ) (w : World)
      → 1 ≤ d
      → limit ≤ u32_max
      → suc n ≤ limit
      → ((k : ℕ) → k < limit → stops k ≡ false)
      → ((k : ℕ) → asks k ≡ d)
      → t ≤ n * d
      → n * d < t + d
      → (cell.get w).now + t ≤ Duration.max
      → (w' : World) × (run (suc n) self w ≡ (some (given_up last (suc n) t t), w'))
        × ((cell.get w').now ≡ (cell.get w).now + t)
  unfolding run
  run_failing-eq lawful d n limit w pos small below goes_on fixed cover tight fits =
      let origin = (cell.get w).now in
      let (w', e, shown) =
        loop-eq lawful d limit origin pos small fits goes_on fixed n (suc n) start w t (omega arith)
          (omega arith) cover tight (omega arith) (omega arith) (omega arith) in
      (
        w',
        rw (failing.now w) (
            e
            ∙ ap (λ (g : Finished R A O). (some g, w')) (given_up-eq last (omega arith) refl refl)),
        shown,
      )
