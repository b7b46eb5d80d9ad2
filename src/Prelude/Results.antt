-- ===== src/Prelude/Results.antt =====
-- The language's own two-case and three-case carriers: `Result<T, E>`, `ControlFlow<B, C>` and
-- `Infallible`.

-- `Result<T, E>`.
pub data Result {ℓ} (T E : Type ℓ) : Type ℓ where
  ok : T → Result T E
  err : E → Result T E

-- `ControlFlow<B, C>`.
pub data ControlFlow {ℓ} (B C : Type ℓ) : Type ℓ where
  break : B → ControlFlow B C
  continue : C → ControlFlow B C

-- `Infallible`, the type with no value.
abbrev pub Infallible : Type 0
Infallible = ⊥

-- `core::task::Poll<A>`, what polling a future gives.
pub data Poll {ℓ} (A : Type ℓ) : Type ℓ where
  pending : Poll A
  ready : A → Poll A
