-- ===== src/Engine/Sync/Timeline/Clamped.antt =====
-- The wait that the timeout of src/engine/mod.rs cuts short, and the attempt after it.
use tenacious.Prelude.{
  ℕ, zero, suc, ◌+◌, ◌≤◌, ◌<◌, Bool, true, false, ◌||◌, some, ◌≡◌, refl, ap, ◌∙◌, arith, Ref,
  le→leb,
}
use native.Mathlib.Decide.{dec_lt}
use tenacious.Duration
use tenacious.Duration.{Duration, saturating_add, saturating_sub}
use tenacious.Decision.{Verdict}
use tenacious.Clock.Virtual.{VirtualClock}
use tenacious.Engine.Sync.{Retry, run}
use tenacious.Engine.Sync.Timeline.{
  Plan, spent, cut, settles, moment, state, due, answer, Undue, Timed,
}
use tenacious.Engine.Sync.Timeline.First.{not_both, Unfolds-Answered}
use tenacious.Engine.Sync.Timeline.Run.{run-Unfolds}

settles-true :
    {R A O : Type 0} (verdict : Verdict R A O) (stopped : Bool)
    → settles verdict (stopped || true) ≡ true
settles-true (Verdict.accept value) stopped = refl
settles-true (Verdict.abort last) stopped = refl
settles-true (Verdict.retry last) true = refl
settles-true (Verdict.retry last) false = refl

module _ {R A O : Type 0} (plan : Plan R A O) (t origin : Duration)
    (limited : plan.timeout ≡ some t) (fits : origin + t ≤ Duration.max) where
  -- An attempt that ends with the budget used up is the last.
  spent-due : (i : ℕ) → t ≤ (state plan origin i).elapsed → due plan origin i ≡ true
  spent-due i over =
      let s = state plan origin i in
      let used = ap (λ budget. spent budget s.elapsed) limited ∙ le→leb t s.elapsed over in
      let verdict = plan.classify (plan.outcomes i) in
      ap (λ late. settles verdict (plan.stops s || late)) used ∙ settles-true verdict (plan.stops s)

  origin-le-moment : (i : ℕ) → origin ≤ (moment plan origin i).reading
  unfolding moment
  origin-le-moment zero = omega arith
  origin-le-moment (suc i) = let ih = origin-le-moment i in omega arith

  undue-lt : (i : ℕ) → due plan origin i ≡ false → (state plan origin i).elapsed < t
  undue-lt i more = elim (dec_lt (state plan origin i).elapsed t) [
    | yes lt ↦ lt
    | no ge ↦ let last = spent-due i (omega arith) in absurd (not_both last more)
  ]

  -- The wait that is cut ends at the deadline, and the attempt after it is the last.
  clamped-due :
      (i : ℕ)
      → due plan origin i ≡ false
      → t ≤ (state plan origin i).elapsed + plan.asks (state plan origin i)
      → ((moment plan origin (suc i)).reading ≡ origin + t) × (due plan origin (suc i) ≡ true)
  unfolding moment
  clamped-due i more asked =
      let early = undue-lt i more in
      let low = origin-le-moment i in
      let s = state plan origin i in
      let clamped = ap (λ budget. cut budget s.elapsed (plan.asks s)) limited in
      let at_deadline : (moment plan origin (suc i)).reading ≡ origin + t = omega arith in
      (at_deadline, spent-due (suc i) (omega arith))

module _ {World R A O : Type 0} (cell : Ref World VirtualClock) (Before : ℕ → World → Type 0)
    (plan : Plan R A O) (self : Retry World R A O) (timed : Timed cell Before plan self) where
  -- A wait that the timeout cuts short is followed by one attempt, which is the last. Suppose that the
  -- retry answers by the plan, that the clock can show the deadline, that the attempts up to the
  -- `i`th, counted from 0, are not the last by the timeline, and that the `i`th asks for a wait that
  -- would not end before the deadline. Then the next attempt begins exactly at the deadline, and with
  -- fuel `i + 2` `run` returns the timeline's answer for it, from every world where `Before 0` holds.
  pub run_clamped-eq :
      (t : Duration) (i : ℕ) (w : World)
      → plan.timeout ≡ some t
      → (cell.get w).now + t ≤ Duration.max
      → Undue plan (cell.get w).now (suc i)
      → t ≤ (state plan (cell.get w).now i).elapsed + plan.asks (state plan (cell.get w).now i)
      → Before 0 w
      → ((moment plan (cell.get w).now (suc i)).reading ≡ (cell.get w).now + t)
        × ((run (suc (suc i)) self w).0 ≡ some (answer plan (cell.get w).now (suc i)))
  run_clamped-eq t i w limited fits earlier asked fresh =
      let origin = (cell.get w).now in
      let (at_deadline, last) =
        clamped-due plan t origin limited fits i (earlier i (omega arith)) asked in
      (
        at_deadline,
        (Unfolds-Answered cell Before plan origin (cell.get w).waits (suc i) (suc (suc i)) _
            (last, earlier) (omega arith)
            (run-Unfolds cell Before plan self timed (suc (suc i)) w fresh)).0,
      )
