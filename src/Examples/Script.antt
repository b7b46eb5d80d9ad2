-- ===== src/Examples/Script.antt =====
-- examples/custom-outcome.rs and examples/polling-terminal-failure.rs: an operation that plays a
-- script.
use tenacious.Prelude.{
  ℕ, zero, suc, ◌+◌, ◌-◌, ◌≤◌, ◌<◌, min, List, [], ◌∷◌, length, ◌≡◌, refl, ◌∙◌, arith, M, Ref,
  IsCell,
}

-- `script[i]`, with a proof that it does not panic.
abbrev pub get : {A : Type 0} (script : List A) (i : ℕ) → i < length script → A
get [] i inside = absurd (omega arith)
get (x ∷ xs) zero inside = x
get (x ∷ xs) (suc i) inside = get xs i (omega arith)

get-eq :
    {A : Type 0} (script : List A) (i j : ℕ) (p : i < length script) (q : j < length script)
    → i ≡ j
    → get script i p ≡ get script j q
get-eq [] i j p q e = absurd (omega arith)
get-eq (x ∷ xs) zero zero p q e = refl
get-eq (x ∷ xs) zero (suc j) p q e = absurd (omega arith)
get-eq (x ∷ xs) (suc i) zero p q e = absurd (omega arith)
get-eq (x ∷ xs) (suc i) (suc j) p q e = get-eq xs i j _ _ (omega arith)

module _ {World A : Type 0} (idx : Ref World ℕ) (script : List A)
    (some_entry : 1 ≤ length script) where
  -- The closure: the next entry of the script, or the last one again and again.
  unfoldable pub scripted : M World A
  scripted w =
      let i = min (idx.get w) (length script - 1) in (get script i (omega arith), idx.set (i + 1) w)

  -- What the `k`th call gives.
  abbrev pub entry : ℕ → A
  entry k = get script (min (k - 1) (length script - 1)) (omega arith)

  -- The index before the `k`th call.
  abbrev pub BeforeCall : ℕ → World → Type 0
  BeforeCall k w = (1 ≤ k) × (idx.get w ≡ min (k - 1) (length script))

  pub scripted-entry :
      (lawful : IsCell idx) (k : ℕ) (w : World)
      → BeforeCall k w
      → ((scripted w).0 ≡ entry k) × BeforeCall (suc k) (scripted w).1
  unfolding scripted
  scripted-entry lawful k w (pos, at) =
      (get-eq script _ _ _ _ (omega arith), (omega arith, lawful.get-set _ w ∙ omega arith))
