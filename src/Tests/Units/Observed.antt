-- ===== src/Tests/Units/Observed.antt =====
-- The tests of src/engine/mod.rs of hooks, of closures without argument, of stats and of the timeout.
use mathlib.Core.Option
use Prim.Native.String.{String}
use text.Mathlib.Text.{◌==◌ as same_text}
use tenacious.Prelude.{
  ℕ, ◌+◌, ◌≡◌, refl, Bool, true, false, Option, some, ok, err, pure, leb, if◌then◌else◌,
}
use tenacious.State.{RetryState}
use tenacious.Predicate.{error, ok_when}
use tenacious.Decision
use tenacious.Decision.{result_outcome}
use tenacious.Engine.Hooks.{Hook, chain_before_attempt, chain_after_attempt, chain_on_exit}
use tenacious.Engine.State.{StopReason, AttemptState, Exit, stop_reason, attempt}
use tenacious.Engine.Stats.{RetryStats}
use tenacious.Engine.Error.{RetryError}
use tenacious.Engine.Sync.{Retry}
use tenacious.Engine.Sync.Builder
use tenacious.Engine.Sync.Builder.{with_timeout, with_wait, with_clock}
use tenacious.Examples.{with_attempts}
use tenacious.Wait.Strategies.{fixed, fixed_wait}
use tenacious.Clock.Virtual.{sync_clock}
use tenacious.Tests.Units.{
  Bench, clock_cell, IntResult, arbitrary_attempts, counted, begin, begin_ext, chained, outcome_of,
  stats_of,
}

-- `before.set(before.get() + 1)`
abbrev count_before : Hook Bench RetryState
count_before _ w = (tt, record w { before = w.before + 1 })

abbrev is_ok : IntResult → Bool
is_ok (ok _) = true
is_ok (err _) = false

-- `after.set(after.get() + 1)`
abbrev count_after : Hook Bench (AttemptState IntResult)
count_after _ w = (tt, record w { after = w.after + 1 })

abbrev observe_after : Hook Bench (AttemptState IntResult)
observe_after s w = (tt, record w { after = w.after + 1; last_after_ok = is_ok s.outcome })

-- `seen.set(Some((e.stop_reason(), e.attempt())))`
abbrev note_seen : Hook Bench (Exit ℕ String IntResult)
note_seen e w = (tt, record w { seen = some (stop_reason e, attempt e) })

-- `reason.set(Some(e.stop_reason()))`
abbrev note_reason : Hook Bench (Exit ℕ String IntResult)
note_reason e w = (tt, record w { reason = some (stop_reason e) })

abbrev after_attempt_fires_before_classification_on_every_attempt :
    Option (Retry Bench ℕ String IntResult)
after_attempt_fires_before_classification_on_every_attempt = chained arbitrary_attempts 0 (
    Option.map
      (λ self. Builder.after_attempt observe_after (Builder.before_attempt count_before self))
      (begin result_outcome (λ _. counted (λ n. if leb 2 n then ok 7 else err "x"))))

hooks_fired :
    let t = outcome_of after_attempt_fires_before_classification_on_every_attempt in
    (t.0 ≡ some (ok 7)) × (t.1.before ≡ 2) × (t.1.after ≡ 2) × (t.1.last_after_ok ≡ true)
unfolding outcome_of chained begin Builder.after_attempt Builder.before_attempt chain_before_attempt
    chain_after_attempt
hooks_fired = (refl, refl, refl, refl)

abbrev on_exit_reports_returned_with_the_final_attempt_count :
    Option (Retry Bench ℕ String IntResult)
on_exit_reports_returned_with_the_final_attempt_count =
    chained arbitrary_attempts 0
      (Option.map (Builder.on_exit note_seen) (begin result_outcome (λ _. pure (ok 1))))

reported_returned :
    (outcome_of on_exit_reports_returned_with_the_final_attempt_count).1.seen
    ≡ some (StopReason.returned, 1)
unfolding outcome_of chained begin Builder.on_exit chain_on_exit stop_reason attempt
reported_returned = refl

abbrev on_exit_reports_aborted_from_a_rejected_error : Option (Retry Bench ℕ String IntResult)
on_exit_reports_aborted_from_a_rejected_error = chained 3 0 (
    Option.map
      (λ self.
        Builder.on_exit note_reason
          (Builder.when (error (λ e. pure (same_text e "transient"))) self))
      (begin result_outcome (λ _. pure (err "fatal"))))

reported_aborted :
    (outcome_of on_exit_reports_aborted_from_a_rejected_error).1.reason ≡ some StopReason.aborted
unfolding outcome_of chained begin Builder.on_exit Builder.when Decision.when error chain_on_exit
    stop_reason
reported_aborted = refl

abbrev on_exit_reports_exhausted_after_the_full_stop_budget :
    Option (Retry Bench ℕ String IntResult)
on_exit_reports_exhausted_after_the_full_stop_budget = chained 3 0 (
    Option.map (λ self. Builder.on_exit note_reason (Builder.after_attempt count_after self))
      (begin result_outcome (λ _. pure (err "boom"))))

reported_exhausted :
    let t = outcome_of on_exit_reports_exhausted_after_the_full_stop_budget in
    (t.1.reason ≡ some StopReason.exhausted) × (t.1.after ≡ 3)
unfolding outcome_of chained begin Builder.on_exit Builder.after_attempt chain_on_exit
    chain_after_attempt stop_reason
reported_exhausted = (refl, refl)

abbrev retry_ext_starts_from_a_no_arg_closure : Option (Retry Bench ℕ String IntResult)
retry_ext_starts_from_a_no_arg_closure =
    chained arbitrary_attempts 0
      (begin_ext result_outcome (counted (λ n. if leb 2 n then ok 5 else err "x")))

no_arg_closure_ok :
    let t = outcome_of retry_ext_starts_from_a_no_arg_closure in
    (t.0 ≡ some (ok 5)) × (t.1.counter ≡ 2)
unfolding outcome_of chained begin_ext
no_arg_closure_ok = (refl, refl)

abbrev retry_ext_supports_the_classifier_surface : Option (Retry Bench ℕ String IntResult)
retry_ext_supports_the_classifier_surface = chained arbitrary_attempts 0 (
    Option.map (Builder.until (ok_when (λ v. pure (leb 3 v))))
      (begin_ext result_outcome (counted (λ n. ok n))))

classifier_surface_ok : (outcome_of retry_ext_supports_the_classifier_surface).0 ≡ some (ok 3)
unfolding outcome_of chained begin_ext Builder.until Decision.until ok_when
classifier_surface_ok = refl

abbrev with_stats_reports_attempts_wait_elapsed_and_reason : Option (Retry Bench ℕ String IntResult)
with_stats_reports_attempts_wait_elapsed_and_reason =
    chained 3 5_000_000 (begin result_outcome (λ _. pure (err "boom")))

abbrev stats_of_three_attempts : RetryStats
stats_of_three_attempts = record {
  attempts = 3;
  total_elapsed = 10_000_000;
  total_wait = 10_000_000;
  stop_reason = StopReason.exhausted;
}

reported_stats :
    stats_of with_stats_reports_attempts_wait_elapsed_and_reason
    ≡ some (err (RetryError.exhausted (err "boom")), stats_of_three_attempts)
unfolding stats_of chained begin
reported_stats = refl

abbrev timeout_stops_the_loop_once_the_budget_is_exceeded : Option (Retry Bench ℕ String IntResult)
timeout_stops_the_loop_once_the_budget_is_exceeded =
    Option.map
      (λ self.
        with_clock (sync_clock clock_cell)
          (with_timeout 25_000_000 (with_wait (fixed_wait (fixed 10_000_000)) self)))
      (with_attempts 100 (begin result_outcome (λ _. pure (err "x"))))

abbrev stats_at_the_deadline : RetryStats
stats_at_the_deadline = record {
  attempts = 4;
  total_elapsed = 25_000_000;
  total_wait = 25_000_000;
  stop_reason = StopReason.exhausted;
}

stopped_at_the_deadline :
    stats_of timeout_stops_the_loop_once_the_budget_is_exceeded
    ≡ some (err (RetryError.exhausted (err "x")), stats_at_the_deadline)
unfolding stats_of begin with_timeout with_attempts with_wait with_clock fixed fixed_wait sync_clock
stopped_at_the_deadline = refl
