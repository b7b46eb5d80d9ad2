-- ===== src/Tests/Units/Sync.antt =====
-- The tests of src/engine/mod.rs.
use mathlib.Core.Option
use Prim.Native.String.{String}
use text.Mathlib.Text.{◌==◌ as same_text}
use tenacious.Prelude.{
  Infallible, ℕ, ◌≡◌, refl, Bool, true, false, Option, some, Result, ok, err, pure, leb,
  if◌then◌else◌,
}
use tenacious.Predicate.{error, ok_when}
use tenacious.Decision
use tenacious.Decision.{
  Verdict, Outcome, result_outcome, verdict_into, decision_into, closure_classifier,
}
use tenacious.Engine.Error.{RetryError}
use tenacious.Engine.Sync.{Retry}
use tenacious.Engine.Sync.Builder
use tenacious.Tests.Units.{
  Bench, IntResult, arbitrary_attempts, counted, begin, chained, outcome_of, abort_on_fatal,
  seek_error,
}

-- A type that classifies itself.
data Poll : Type 0 where
  pending : Poll
  ready : ℕ → Poll
  failed : String → Poll

unfoldable classify : Poll → Verdict ℕ String Poll
classify (Poll.ready value) = Verdict.accept value
classify (Poll.failed error) = Verdict.abort error
classify Poll.pending = Verdict.retry Poll.pending

abbrev poll_outcome : Outcome Poll ℕ String
poll_outcome = record { classify = classify }

abbrev retries_on_err_then_returns_the_ok_value : Option (Retry Bench ℕ String IntResult)
retries_on_err_then_returns_the_ok_value =
    chained arbitrary_attempts 0
      (begin result_outcome (λ _. counted (λ n. if leb 2 n then ok 7 else err "not yet")))

retried_ok :
    let t = outcome_of retries_on_err_then_returns_the_ok_value in
    (t.0 ≡ some (ok 7)) × (t.1.counter ≡ 2)
unfolding outcome_of chained begin
retried_ok = (refl, refl)

abbrev exhausts_with_the_final_outcome_when_stop_fires : Option (Retry Bench ℕ String IntResult)
exhausts_with_the_final_outcome_when_stop_fires =
    chained 3 0 (begin result_outcome (λ _. counted (λ n. err "boom")))

exhausted_last :
    let t = outcome_of exhausts_with_the_final_outcome_when_stop_fires in
    (t.0 ≡ some (err (RetryError.exhausted (err "boom")))) × (t.1.counter ≡ 3)
unfolding outcome_of chained begin
exhausted_last = (refl, refl)

abbrev decide_can_abort_on_a_projected_payload : Option (Retry Bench ℕ String IntResult)
decide_can_abort_on_a_projected_payload = chained arbitrary_attempts 0 (
    Option.map (Builder.decide verdict_into (λ o. pure (abort_on_fatal o)))
      (begin result_outcome (λ _. pure (err "fatal"))))

aborted_payload :
    (outcome_of decide_can_abort_on_a_projected_payload).0 ≡ some (err (RetryError.aborted "boom"))
unfolding outcome_of chained begin Builder.decide closure_classifier verdict_into
aborted_payload = refl

abbrev decide_returns_the_sought_error_through_ok :
    Option (Retry Bench String Infallible (Result (Unit {0}) String))
decide_returns_the_sought_error_through_ok = chained 10 0 (
    Option.map (Builder.decide_anew decision_into (λ o. pure (seek_error o)))
      (begin result_outcome (λ _. counted (λ n. if leb 3 n then err "crash" else ok tt))))

sought_error :
    let t = outcome_of decide_returns_the_sought_error_through_ok in
    (t.0 ≡ some (ok "crash")) × (t.1.counter ≡ 3)
unfolding outcome_of chained begin Builder.decide_anew closure_classifier decision_into
sought_error = (refl, refl)

data Status : Type 0 where
  pending done : Status

abbrev is_done : Status → Bool
is_done Status.pending = false
is_done Status.done = true

abbrev until_polls_a_result_until_ready : Option (Retry Bench Status String (Result Status String))
until_polls_a_result_until_ready = chained arbitrary_attempts 0 (
    Option.map (Builder.until (ok_when (λ s. pure (is_done s)))) (
      begin result_outcome
        (λ _. counted (λ n. ok (if leb 2 n then Status.done else Status.pending)))))

polled_until_ready :
    let t = outcome_of until_polls_a_result_until_ready in
    (t.0 ≡ some (ok Status.done)) × (t.1.counter ≡ 2)
unfolding outcome_of chained begin Builder.until Decision.until ok_when
polled_until_ready = (refl, refl)

abbrev is_transient : String → Bool
is_transient e = same_text e "transient"

abbrev when_aborts_on_a_rejected_error : Option (Retry Bench ℕ String IntResult)
when_aborts_on_a_rejected_error = chained arbitrary_attempts 0 (
    Option.map (Builder.when (error (λ e. pure (is_transient e))))
      (begin result_outcome (λ _. pure (err "fatal"))))

rejected_error :
    (outcome_of when_aborts_on_a_rejected_error).0 ≡ some (err (RetryError.aborted "fatal"))
unfolding outcome_of chained begin Builder.when Decision.when error
rejected_error = refl

abbrev owned_outcome_type_returns_via_the_default_path : Option (Retry Bench ℕ String Poll)
owned_outcome_type_returns_via_the_default_path =
    chained arbitrary_attempts 0
      (begin poll_outcome (λ _. counted (λ n. if leb 3 n then Poll.ready 9 else Poll.pending)))

owned_returns :
    let t = outcome_of owned_outcome_type_returns_via_the_default_path in
    (t.0 ≡ some (ok 9)) × (t.1.counter ≡ 3)
unfolding outcome_of chained begin classify
owned_returns = (refl, refl)

abbrev owned_outcome_type_aborts_via_the_default_path : Option (Retry Bench ℕ String Poll)
owned_outcome_type_aborts_via_the_default_path =
    chained arbitrary_attempts 0 (begin poll_outcome (λ _. pure (Poll.failed "io")))

owned_aborts :
    (outcome_of owned_outcome_type_aborts_via_the_default_path).0
    ≡ some (err (RetryError.aborted "io"))
unfolding outcome_of chained begin classify
owned_aborts = refl
