-- ===== src/Decision.antt =====
-- src/decision.rs: the verdicts, the self-classifying outcomes and the classifiers.
pub mod Laws
use tenacious.Prelude.{Bool, M, pure, ◌>>=◌, Option, none, some, if◌then◌else◌}
use tenacious.Prelude.{Result, ok, err, ControlFlow, break, continue, Infallible}
use tenacious.Predicate.{Predicate}

-- `Return` and `Retry`; `Return` is spelled `accept`.
pub data Decision {ℓ} (R O : Type ℓ) : Type ℓ where
  accept : R → Decision R O
  retry : O → Decision R O

pub data Verdict {ℓ} (R A O : Type ℓ) : Type ℓ where
  accept : R → Verdict R A O
  retry : O → Verdict R A O
  abort : A → Verdict R A O

-- `classify`, the one method of the trait `Outcome`, with its `Return` and `Abort` types.
pub record Outcome (O R A : Type 0) : Type 0 where
  pub classify : O → Verdict R A O

classify_result : {T E : Type 0} → Result T E → Verdict T E (Result T E)
classify_result (ok value) = Verdict.accept value
classify_result (err e) = Verdict.retry (err e)

classify_option : {T : Type 0} → Option T → Verdict T Infallible (Option T)
classify_option (some value) = Verdict.accept value
classify_option none = Verdict.retry none

classify_control_flow : {B C : Type 0} → ControlFlow B C → Verdict B Infallible (ControlFlow B C)
classify_control_flow (break value) = Verdict.accept value
classify_control_flow (continue c) = Verdict.retry (continue c)

unfoldable pub result_outcome : {T E : Type 0} → Outcome (Result T E) T E
unfolding classify_result
result_outcome = record { classify = classify_result }

unfoldable pub option_outcome : {T : Type 0} → Outcome (Option T) T Infallible
unfolding classify_option
option_outcome = record { classify = classify_option }

unfoldable pub control_flow_outcome : {B C : Type 0} → Outcome (ControlFlow B C) B Infallible
unfolding classify_control_flow
control_flow_outcome = record { classify = classify_control_flow }

-- `decide`, the one method of the trait `Decide`. It takes the world, since the closure of
-- `.decide` and the predicates of `.when` and `.until` may use shared cells.
abbrev pub Decide : Type 0 → Type 0 → Type 0 → Type 0 → Type 0
Decide World R A O = O → M World (Verdict R A O)

abbrev pub accept_or_abort : {T E : Type 0} → Result T E → Verdict T E (Result T E)
accept_or_abort (ok value) = Verdict.accept value
accept_or_abort (err e) = Verdict.abort e

module _ {World : Type 0} where
  unfoldable pub default_classifier : {O R A : Type 0} → Outcome O R A → Decide World R A O
  default_classifier o outcome = pure (o.classify outcome)

  module _ {T E : Type 0} where
    unfoldable pub when : Predicate World T E → Decide World T E (Result T E)
    when predicate outcome = do
      wanted ← predicate outcome
      pure (if wanted then Verdict.retry outcome else accept_or_abort outcome)

    unfoldable pub until : Predicate World T E → Decide World T E (Result T E)
    until predicate outcome = do
      satisfied ← predicate outcome
      pure (if satisfied then accept_or_abort outcome else Verdict.retry outcome)

-- `into_verdict`, the one method of the sealed trait `IntoDecision`.
pub record IntoDecision (D R A O : Type 0) : Type 0 where
  pub into_verdict : D → Verdict R A O

decision_into_verdict : {R O : Type 0} → Decision R O → Verdict R Infallible O
decision_into_verdict (Decision.accept r) = Verdict.accept r
decision_into_verdict (Decision.retry o) = Verdict.retry o

unfoldable pub decision_into : {R O : Type 0} → IntoDecision (Decision R O) R Infallible O
unfolding decision_into_verdict
decision_into = record { into_verdict = decision_into_verdict }

unfoldable pub verdict_into : {R A O : Type 0} → IntoDecision (Verdict R A O) R A O
verdict_into = record { into_verdict = λ v. v }

-- `ClosureClassifier`, over its closure.
unfoldable pub closure_classifier :
    {World D R A O : Type 0} → IntoDecision D R A O → (O → M World D) → Decide World R A O
closure_classifier into closure outcome = do d ← closure outcome; pure (into.into_verdict d)
