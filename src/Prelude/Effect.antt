-- ===== src/Prelude/Effect.antt =====
-- Code that reads and writes a world. The crate's strategies, hooks, operations and clocks take
-- `&self` or `&mut self` and may share cells with one another; a call takes the whole world and
-- returns it, so every sharing of a cell is allowed.
use mathlib.Core.Path.{◌≡◌}

abbrev pub M {ℓ κ} : Type ℓ → Type κ → Type (ℓ ⊔ κ)
M World A = World → A × World

abbrev pub pure {ℓ κ} : {World : Type ℓ} {A : Type κ} → A → M World A
pure a w = (a, w)

infixl 5 ◌>>=◌ ◌>>◌
abbrev pub ◌>>=◌ {ℓ κ μ} :
    {World : Type ℓ} {A : Type κ} {B : Type μ} → M World A → (A → M World B) → M World B
◌>>=◌ m f w = f (m w).0 (m w).1

abbrev pub ◌>>◌ {ℓ κ} : {World : Type ℓ} {B : Type κ} → M World (Unit {0}) → M World B → M World B
◌>>◌ m k w = k (m w).1

-- The call that does nothing.
abbrev pub skip {ℓ} : {World : Type ℓ} → M World (Unit {0})
skip w = (tt, w)

-- A cell of the world: what a `Cell`, an atomic or a field behind a shared reference is.
pub record Ref {ℓ κ} (World : Type ℓ) (A : Type κ) : Type (ℓ ⊔ κ) where
  pub get : World → A
  pub set : A → World → World

-- A cell reads back what was written last, and writing it again forgets the earlier write.
pub record IsCell {ℓ κ} {World : Type ℓ} {A : Type κ} (r : Ref World A) : Type (ℓ ⊔ κ) where
  pub get-set : (a : A) (w : World) → r.get (r.set a w) ≡ a
  pub set-set : (a b : A) (w : World) → r.set b (r.set a w) ≡ r.set b w

-- Writing the second cell leaves the first as it is.
abbrev pub Apart {ℓ κ μ} :
    {World : Type ℓ} {A : Type κ} {B : Type μ} → Ref World A → Ref World B → Type (ℓ ⊔ κ ⊔ μ)
Apart {World = World} {B = B} r s = (b : B) (w : World) → r.get (s.set b w) ≡ r.get w
