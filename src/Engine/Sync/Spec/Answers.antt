-- ===== src/Engine/Sync/Spec/Answers.antt =====
-- What the specification of the loop in src/engine/mod.rs comes to on outcomes of a known shape.
use tenacious.Prelude.{ℕ, zero, suc, ◌+◌, ◌≤◌, ◌<◌, ◌≡◌, refl, ap, ◌∙◌, arith}
use mathlib.Core.Path.{subst}
use native.Mathlib.Decide.{dec_lt}
use tenacious.Prelude.{
  leb, leb→le, le→leb, lt→not_leb, not_leb→lt, Bool-cases, inl, inr, if◌then◌else◌,
}
use tenacious.Decision.{Verdict}
use tenacious.Engine.Sync.Spec.{Answer, final, early, resolve}

-- The verdict asks for another attempt.
abbrev pub Retries : {R A O : Type 0} → Verdict R A O → Type 0
Retries (Verdict.accept value) = ⊥
Retries (Verdict.abort last) = ⊥
Retries (Verdict.retry last) = Unit

-- The verdict ends the loop by itself.
abbrev pub Settles : {R A O : Type 0} → Verdict R A O → Type 0
Settles (Verdict.accept value) = Unit
Settles (Verdict.abort last) = Unit
Settles (Verdict.retry last) = ⊥

-- Outcomes that change once: `before` up to the `n`th attempt, and `after` from then on.
abbrev pub switch : {O : Type 0} → O → O → ℕ → ℕ → O
switch before after n i = if leb i n then before else after

module _ {R A O : Type 0} where
  early-Retries :
      (verdict : Verdict R A O) (k : ℕ) (rest : Answer R A O)
      → Retries verdict
      → early verdict k rest ≡ rest
  early-Retries (Verdict.accept value) k rest on = absurd on
  early-Retries (Verdict.abort last) k rest on = absurd on
  early-Retries (Verdict.retry last) k rest on = refl

  early-Settles :
      (verdict : Verdict R A O) (k : ℕ) (rest : Answer R A O)
      → Settles verdict
      → early verdict k rest ≡ final verdict k
  early-Settles (Verdict.accept value) k rest settled = refl
  early-Settles (Verdict.abort last) k rest settled = refl
  early-Settles (Verdict.retry last) k rest settled = absurd settled

  module _ (classify : O → Verdict R A O) (outcomes : ℕ → O) where
    -- If the attempts before the `j`th are to be retried, the `j`th one settles it.
    resolve-Settles :
        (more k j : ℕ)
        → k ≤ j
        → j ≤ k + more
        → ((i : ℕ) → k ≤ i → i < j → Retries (classify (outcomes i)))
        → Settles (classify (outcomes j))
        → resolve classify outcomes more k ≡ final (classify (outcomes j)) j
    resolve-Settles zero k j a b on settled =
        let same : k ≡ j = omega arith in ap (λ i. final (classify (outcomes i)) i) same
    resolve-Settles (suc more) k j a b on settled = elim (dec_lt k j) [
      | yes p ↦
          early-Retries (classify (outcomes k)) k _ (on k (omega arith) p)
          ∙ resolve-Settles more (suc k) j p (omega arith) (λ i c d. on i (omega arith) d) settled
      | no p ↦
          let same : k ≡ j = omega arith in
          subst (λ i. resolve classify outcomes (suc more) k ≡ final (classify (outcomes i)) i) same
            (early-Settles (classify (outcomes k)) k _
              (subst (λ i. Settles (classify (outcomes i))) (omega arith) settled))
    ]

    -- If all attempts are to be retried, the last one is the answer.
    pub resolve-Retries :
        (more k : ℕ)
        → ((i : ℕ) → k ≤ i → i < k + more → Retries (classify (outcomes i)))
        → resolve classify outcomes more k ≡ final (classify (outcomes (k + more))) (k + more)
    resolve-Retries zero k on =
        let same : k ≡ k + 0 = omega arith in ap (λ i. final (classify (outcomes i)) i) same
    resolve-Retries (suc more) k on =
        let same : suc k + more ≡ k + suc more = omega arith in
        early-Retries (classify (outcomes k)) k _ (on k (omega arith) (omega arith))
        ∙ resolve-Retries more (suc k) (λ i c d. on i (omega arith) (omega arith))
        ∙ ap (λ i. final (classify (outcomes i)) i) same

  pub resolve-switch :
      (classify : O → Verdict R A O) (before after : O) (more n : ℕ)
      → Retries (classify before)
      → Settles (classify after)
      → resolve classify (switch before after n) more 1 ≡ (
          if leb n more then final (classify after) (suc n) else final (classify before) (suc more))
  resolve-switch classify before after more n on settled = elim (Bool-cases (leb n more)) [
    | inl e ↦
        let few = leb→le n more e in
        let over = lt→not_leb (suc n) n (omega arith) in
        rw e (
          resolve-Settles classify (switch before after n) more 1 (suc n) (omega arith)
            (omega arith) (λ i a b. rw (le→leb i n (omega arith)) on) (rw over settled)
          ∙ rw over refl)
    | inr e ↦
        let many = not_leb→lt n more e in
        rw e (
          resolve-Retries classify (switch before after n) more 1
            (λ i a b. rw (le→leb i n (omega arith)) on)
          ∙ rw (le→leb (1 + more) n (omega arith))
              (ap (λ (k : ℕ). final (classify before) k) (omega arith)))
  ]
