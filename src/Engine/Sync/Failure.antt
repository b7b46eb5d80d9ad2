-- ===== src/Engine/Sync/Failure.antt =====
-- What an error of src/engine/error.rs tells about the run of src/engine/mod.rs that gave it.
use tenacious.Prelude.{ℕ, none, some, err, ◌≡◌, refl, ◌∙◌, ap, ◌⊎◌, inl, inr}
use mathlib.Core.Path.{subst}
use tenacious.Decision.{Verdict}
use tenacious.Engine.Error
use tenacious.Engine.Error.{RetryError, last}
use tenacious.Engine.Step.Laws.{reason_of, verdict_of}
use tenacious.Engine.Sync.{Retry, Finished, run}
use tenacious.Engine.Sync.Outcome.{Attempted, run-Attempted}

module _ {World R A O : Type 0} (self : Retry World R A O) where
  -- What the error says of the attempt with this number.
  abbrev pub Explains : ℕ → RetryError A O → Type 0
  Explains n e =
      ((o : O) × (last e ≡ some o) × Attempted self n (Verdict.retry o))
      ⊎ ((a : A) × (last e ≡ none) × Attempted self n (Verdict.abort a))

  explain :
      (n : ℕ) (e : RetryError A O) → Attempted self n (verdict_of {R = R} (err e)) → Explains n e
  unfolding last
  explain n (RetryError.aborted a) tried = inr (a, refl, tried)
  explain n (RetryError.exhausted o) tried = inl (o, refl, tried)

  same_reason : (e : RetryError A O) → reason_of {R = R} (err e) ≡ Error.stop_reason e
  unfolding Error.stop_reason
  same_reason (RetryError.aborted a) = refl
  same_reason (RetryError.exhausted o) = refl

  -- If `run` returns an error, the stop reason of the error is the one in the stats. Either
  -- `last` gives the outcome of a call of the operation, with the attempt number in the stats, that
  -- the classifier answers by `Retry`, or it gives none, and such a call's outcome is answered by
  -- `Abort`.
  pub run-Explains :
      (fuel : ℕ) (w : World) (e : RetryError A O) {f : Finished R A O}
      → (run fuel self w).0 ≡ some f
      → f.0 ≡ err e
      → (f.1.stop_reason ≡ Error.stop_reason e) × Explains f.1.attempts e
  run-Explains fuel w e {f} h failed =
      let (tried, reason) = run-Attempted self fuel w h in
      (
        reason ∙ ap reason_of failed ∙ same_reason e,
        explain f.1.attempts e
            (subst (λ r. Attempted self f.1.attempts (verdict_of r)) failed tried),
      )
