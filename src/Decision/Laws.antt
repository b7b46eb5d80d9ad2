-- ===== src/Decision/Laws.antt =====
-- The classifiers of src/decision.rs beside one another.
use tenacious.Prelude.{Bool-cases, inl, inr, not, Result, ok, err, ◌≡◌, refl, pure, ◌>>=◌}
use tenacious.Predicate.{Predicate, any_error}
use tenacious.Decision.{when, until, default_classifier, result_outcome}

-- The predicate that asks `predicate` and answers the opposite.
abbrev pub opposite : {World T E : Type 0} → Predicate World T E → Predicate World T E
opposite predicate outcome = do answer ← predicate outcome; pure (not answer)

module _ {World T E : Type 0} where
  -- `until` is `when` with the opposite predicate: the same verdict and the same world, for every
  -- predicate, outcome and world.
  until-when :
      (predicate : Predicate World T E) (outcome : Result T E) (w : World)
      → until predicate outcome w ≡ when (opposite predicate) outcome w
  unfolding until when
  until-when predicate outcome w = elim (Bool-cases (predicate outcome w).0) [
    | inl e ↦ rw e refl
    | inr e ↦ rw e refl
  ]

  -- On a `Result` the default classifier gives the verdict of `when(any_error)` for every
  -- outcome, and leaves the same world.
  default_classifier-when :
      (outcome : Result T E) (w : World)
      → default_classifier result_outcome outcome w ≡ when any_error outcome w
  unfolding default_classifier result_outcome when any_error
  default_classifier-when (ok value) w = refl
  default_classifier-when (err e) w = refl
