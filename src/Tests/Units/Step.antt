-- ===== src/Tests/Units/Step.antt =====
-- The tests of src/engine/step.rs.
use mathlib.Core.Option
use Prim.Native.String.{String}
use tenacious.Prelude.{ℕ, ◌≡◌, refl, Option, none, some, ok, err, pure}
use tenacious.Duration.{Duration}
use tenacious.Decision.{Decide, Verdict, default_classifier, result_outcome}
use tenacious.Stop.{attempts, after_attempts}
use tenacious.Wait.Strategies.{fixed, fixed_wait}
use tenacious.Engine.Hooks.{new}
use tenacious.Engine.State.{StopReason}
use tenacious.Engine.Error.{RetryError}
use tenacious.Engine.Step.{Progress, Step, step}
use tenacious.Tests.Units.{IntResult}

-- The tests share nothing with the hooks and the strategies.
abbrev Nothing : Type 0
Nothing = Unit {0}

abbrev ten_ms : Duration
ten_ms = 10_000_000

abbrev Stepped : Type 0
Stepped = Option (Step ℕ String IntResult)

-- The classifier `AlwaysAbort`. `panicked` stands for the panic of `unwrap_err` at an `Ok`.
abbrev always_abort : Verdict ℕ String IntResult → Decide Nothing ℕ String IntResult
always_abort panicked (ok _) = pure panicked
always_abort panicked (err e) = pure (Verdict.abort e)

abbrev default : Decide Nothing ℕ String IntResult
default = default_classifier result_outcome

-- `step(progress, outcome, classifier, &stop::attempts(max), &wait::fixed(DELAY), timeout, hooks)`
unfoldable stepped_with :
    ℕ → Option Duration → Decide Nothing ℕ String IntResult → Progress → IntResult → Stepped
unfolding step attempts after_attempts fixed fixed_wait new default_classifier result_outcome
stepped_with max timeout classifier progress outcome =
    Option.map
      (λ stop.
        (step progress outcome classifier (after_attempts stop) (fixed_wait (fixed ten_ms)) timeout
          new tt).0)
      (attempts max)

abbrev first_progress : Duration → Progress
first_progress elapsed = record {
  attempt = 1;
  elapsed = elapsed;
  previous_delay = none;
  total_wait = 0;
}

abbrev second_progress : Duration → Progress
second_progress elapsed = record {
  attempt = 2;
  elapsed = elapsed;
  previous_delay = some ten_ms;
  total_wait = ten_ms;
}

abbrev return_terminates_with_returned_stats : Stepped
return_terminates_with_returned_stats = stepped_with 3 none default (first_progress 0) (ok 5)

step_returned :
    return_terminates_with_returned_stats
    ≡ some (
        Step.done (ok 5) (record {
          attempts = 1;
          total_elapsed = 0;
          total_wait = 0;
          stop_reason = StopReason.returned;
        }))
unfolding stepped_with
step_returned = refl

abbrev abort_terminates_with_aborted_stats : Verdict ℕ String IntResult → Stepped
abort_terminates_with_aborted_stats panicked =
    stepped_with 5 none (always_abort panicked) (second_progress ten_ms) (err "fatal")

step_aborted :
    (panicked : Verdict ℕ String IntResult)
    → abort_terminates_with_aborted_stats panicked
      ≡ some (
          Step.done (err (RetryError.aborted "fatal")) (record {
            attempts = 2;
            total_elapsed = ten_ms;
            total_wait = ten_ms;
            stop_reason = StopReason.aborted;
          }))
unfolding stepped_with
step_aborted panicked = refl

abbrev retry_continues_and_adds_delay_to_total_wait : Stepped
retry_continues_and_adds_delay_to_total_wait =
    stepped_with 5 none default (second_progress 0) (err "again")

step_continued : retry_continues_and_adds_delay_to_total_wait ≡ some (Step.again ten_ms 20_000_000)
unfolding stepped_with
step_continued = refl

abbrev retry_exhausts_when_stop_fires : Stepped
retry_exhausts_when_stop_fires = stepped_with 1 none default (first_progress 0) (err "last")

step_exhausted :
    retry_exhausts_when_stop_fires
    ≡ some (
        Step.done (err (RetryError.exhausted (err "last"))) (record {
          attempts = 1;
          total_elapsed = 0;
          total_wait = 0;
          stop_reason = StopReason.exhausted;
        }))
unfolding stepped_with
step_exhausted = refl

-- 5 ms have passed of 8.
abbrev retry_clamps_delay_to_remaining_timeout_budget : Stepped
retry_clamps_delay_to_remaining_timeout_budget =
    stepped_with 5 (some 8_000_000) default (first_progress 5_000_000) (err "again")

step_clamped :
    retry_clamps_delay_to_remaining_timeout_budget ≡ some (Step.again 3_000_000 3_000_000)
unfolding stepped_with
step_clamped = refl
