-- ===== src/Engine/Sync/Shapes.antt =====
-- What the results of the loop in src/engine/mod.rs can be where the outcomes classify themselves by
-- the impls of src/decision.rs.
use tenacious.Prelude.{ℕ, ◌≡◌, ap, ◌∙◌, sym, Option, none, some, Result, ok, err}
use tenacious.Prelude.{ControlFlow, break, continue, Infallible}
use tenacious.Decision.{default_classifier, result_outcome, option_outcome, control_flow_outcome}
use tenacious.Engine.Error.{RetryError}
use tenacious.Engine.Step.Laws.{verdict_of}
use tenacious.Engine.Sync.{Retry, Finished, run}
use tenacious.Engine.Sync.Outcome.{run-Attempted}

abbrev pub ResultShaped : {T E : Type 0} → Result T (RetryError E (Result T E)) → Type 0
ResultShaped (ok value) = Unit
ResultShaped (err (RetryError.aborted e)) = ⊥
ResultShaped (err (RetryError.exhausted (ok value))) = ⊥
ResultShaped (err (RetryError.exhausted (err e))) = Unit

abbrev pub OptionShaped : {T : Type 0} → Result T (RetryError Infallible (Option T)) → Type 0
OptionShaped (ok value) = Unit
OptionShaped (err (RetryError.aborted e)) = ⊥
OptionShaped (err (RetryError.exhausted none)) = Unit
OptionShaped (err (RetryError.exhausted (some value))) = ⊥

abbrev pub FlowShaped : {B C : Type 0} → Result B (RetryError Infallible (ControlFlow B C)) → Type 0
FlowShaped (ok value) = Unit
FlowShaped (err (RetryError.aborted e)) = ⊥
FlowShaped (err (RetryError.exhausted (break value))) = ⊥
FlowShaped (err (RetryError.exhausted (continue c))) = Unit

classify-ResultShaped :
    {T E : Type 0} (outcome : Result T E) (result : Result T (RetryError E (Result T E)))
    → result_outcome.classify outcome ≡ verdict_of result
    → ResultShaped result
unfolding result_outcome
classify-ResultShaped outcome (ok value) e = tt
classify-ResultShaped (ok v) (err (RetryError.aborted a)) e = cc
classify-ResultShaped (err v) (err (RetryError.aborted a)) e = cc
classify-ResultShaped (ok v) (err (RetryError.exhausted (ok value))) e = cc
classify-ResultShaped (err v) (err (RetryError.exhausted (ok value))) e = cc
classify-ResultShaped outcome (err (RetryError.exhausted (err a))) e = tt

classify-OptionShaped :
    {T : Type 0} (outcome : Option T) (result : Result T (RetryError Infallible (Option T)))
    → option_outcome.classify outcome ≡ verdict_of result
    → OptionShaped result
unfolding option_outcome
classify-OptionShaped outcome (ok value) e = tt
classify-OptionShaped outcome (err (RetryError.aborted a)) e = a
classify-OptionShaped none (err (RetryError.exhausted (some value))) e = cc
classify-OptionShaped (some v) (err (RetryError.exhausted (some value))) e = cc
classify-OptionShaped outcome (err (RetryError.exhausted none)) e = tt

classify-FlowShaped :
    {B C : Type 0} (outcome : ControlFlow B C)
    (result : Result B (RetryError Infallible (ControlFlow B C)))
    → control_flow_outcome.classify outcome ≡ verdict_of result
    → FlowShaped result
unfolding control_flow_outcome
classify-FlowShaped outcome (ok value) e = tt
classify-FlowShaped outcome (err (RetryError.aborted a)) e = a
classify-FlowShaped (break v) (err (RetryError.exhausted (break value))) e = cc
classify-FlowShaped (continue v) (err (RetryError.exhausted (break value))) e = cc
classify-FlowShaped outcome (err (RetryError.exhausted (continue c))) e = tt

module _ {World T E U B C : Type 0} (results : Retry World T E (Result T E))
    (options : Retry World U Infallible (Option U))
    (flows : Retry World B Infallible (ControlFlow B C)) where
  -- The outcomes that classify themselves bound what a caller has to handle. With the default
  -- classifier, whenever `run` returns: on `Result` it gives `Ok(v)` or `Exhausted` with an `Err`, on
  -- `Option` it gives `Ok(v)` or `Exhausted` with `None`, and on `ControlFlow` it gives `Ok(v)` or
  -- `Exhausted` with a `Continue`. It never gives `Aborted`, and never `Exhausted` with a value that
  -- the caller wanted.
  pub run-Shaped :
      (fuel : ℕ) (w : World)
      → results.classifier ≡ default_classifier result_outcome
      → options.classifier ≡ default_classifier option_outcome
      → flows.classifier ≡ default_classifier control_flow_outcome
      → ((f : Finished T E (Result T E)) → (run fuel results w).0 ≡ some f → ResultShaped f.0)
        × ((f : Finished U Infallible (Option U))
            → (run fuel options w).0 ≡ some f
            → OptionShaped f.0)
        × ((f : Finished B Infallible (ControlFlow B C))
            → (run fuel flows w).0 ≡ some f
            → FlowShaped f.0)
  unfolding default_classifier
  run-Shaped fuel w r o c = (
    λ f h.
        let ((state, v, v', _, judged), _) = run-Attempted results fuel w h in
        classify-ResultShaped _ f.0 (sym (ap (λ k. (k (results.op state v).0 v').0) r) ∙ judged),
    λ f h.
        let ((state, v, v', _, judged), _) = run-Attempted options fuel w h in
        classify-OptionShaped _ f.0 (sym (ap (λ k. (k (options.op state v).0 v').0) o) ∙ judged),
    λ f h.
        let ((state, v, v', _, judged), _) = run-Attempted flows fuel w h in
        classify-FlowShaped _ f.0 (sym (ap (λ k. (k (flows.op state v).0 v').0) c) ∙ judged),
  )
