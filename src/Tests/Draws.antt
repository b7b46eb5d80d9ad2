-- ===== src/Tests/Draws.antt =====
-- The generator of the jitter at concrete states.
use mathlib.Core.List.{Nodup}
use tenacious.Prelude.{Ref, ℕ, ◌+◌, refl, ◌≡◌, ◌≢◌, arith}
use tenacious.Wait.Strategies.{fixed, fixed_wait}
use tenacious.Wait.Jitter.{JitterKind, mix}
use tenacious.Wait.Jitter.Mixing.{unmix, mix_roundtrip}
use tenacious.Wait.Jitter.Distinct.{
  draws_among, draws_among-Nodup, first_draw, go_on, first_draw_distinct,
}
use tenacious.Tests.Fixtures.{fresh, rng_cell, rng_cell-IsCell}

mix_roundtrip_example : (unmix (mix 9) ≡ 9) × (mix (unmix 9) ≡ 9)
mix_roundtrip_example = mix_roundtrip 9 (omega arith)

-- Between two draws the operation is called.
draws_among-Nodup_example :
    Nodup (draws_among rng_cell 1000 (λ i w. record w { calls = w.calls + i }) fresh)
draws_among-Nodup_example =
    draws_among-Nodup rng_cell 1000 (λ i w. record w { calls = w.calls + i }) fresh rng_cell-IsCell
      (λ i v. refl) (omega arith)

-- The nonce counter, and the generators of two strategies.
record Cells : Type 0 where
  nonces : ℕ
  rng : ℕ
  rng' : ℕ

abbrev nonces_cell : Ref Cells ℕ
nonces_cell = record { get = λ w. w.nonces; set = λ a w. record w { nonces = a } }

abbrev rng_of : Ref Cells ℕ
rng_of = record { get = λ w. w.rng; set = λ a w. record w { rng = a } }

abbrev rng_of' : Ref Cells ℕ
rng_of' = record { get = λ w. w.rng'; set = λ a w. record w { rng' = a } }

abbrev zeros : Cells
zeros = record { nonces = 0; rng = 0; rng' = 0 }

-- Three nonces are taken in between, and the first generator moves.
first_draw_distinct_example :
    let first = first_draw nonces_cell (fixed_wait (fixed 30)) JitterKind.full rng_of 77 zeros in
    first.0
    ≢ (first_draw nonces_cell
        (fixed_wait (fixed 9))
        JitterKind.equal
        rng_of'
        77
        (go_on nonces_cell 3 (λ i v. record v { rng = v.rng + i }) (λ i. 77 + i) first.1)).0
first_draw_distinct_example =
    first_draw_distinct nonces_cell (fixed_wait (fixed 30)) (fixed_wait (fixed 9)) JitterKind.full
      JitterKind.equal rng_of rng_of' 77 3 (λ i v. record v { rng = v.rng + i }) (λ i. 77 + i) zeros
      (record { get-set = λ a w. refl; set-set = λ a b w. refl })
      (record { get-set = λ a w. refl; set-set = λ a b w. refl })
      (record { get-set = λ a w. refl; set-set = λ a b w. refl }) (λ b w. refl) (λ i v. refl)
      (omega arith) (omega arith)
