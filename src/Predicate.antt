-- ===== src/Predicate.antt =====
-- src/predicate/mod.rs: the `Predicate` trait and its factories. A predicate is a `Fn` closure or a
-- struct behind `&self`; both may read and write shared cells, so `should_retry` takes the world.
use tenacious.Prelude.{Bool, true, false, M, pure, Result, ok, err}

-- The one method of the trait, `should_retry`. A plain closure is a predicate as it stands.
abbrev pub Predicate : Type 0 → Type 0 → Type 0 → Type 0
Predicate World T E = Result T E → M World Bool

module _ {World T E : Type 0} where
  -- `PredicateAnyError`
  unfoldable pub any_error : Predicate World T E
  any_error (ok _) = pure false
  any_error (err _) = pure true

  -- `PredicateError`, over its matcher.
  unfoldable pub error : (E → M World Bool) → Predicate World T E
  error matcher (ok _) = pure false
  error matcher (err e) = matcher e

  -- `PredicateResult`, over its matcher.
  unfoldable result : (Result T E → M World Bool) → Predicate World T E
  result matcher outcome = matcher outcome

  -- `PredicateOk`, over its matcher.
  unfoldable pub ok_when : (T → M World Bool) → Predicate World T E
  ok_when matcher (ok value) = matcher value
  ok_when matcher (err _) = pure false
