-- ===== src/Examples/BasicRetry.antt =====
-- examples/basic-retry.rs: a call that fails a number of times before it succeeds.
use mathlib.Core.Option
use Prim.Native.String.{String}
use tenacious.Prelude.{
  ℕ, suc, ◌-◌, ◌≤◌, ◌<◌, Bool-cases, inl, inr, ◌≡◌, refl, ◌∙◌, arith, Option, Result, ok, err, M,
  Ref, IsCell, Apart, ltb, leb, le→leb, lt→not_leb, if◌then◌else◌,
}
use mathlib.Core.Path.{subst}
use tenacious.Float.{Float}
use tenacious.Decision.{default_classifier, result_outcome}
use tenacious.Stop.{attempts}
use tenacious.Wait.Strategies.{fixed, fixed_wait}
use tenacious.Clock.{SyncClock}
use tenacious.Clock.Virtual
use tenacious.Clock.Virtual.{VirtualClock, sync_clock}
use tenacious.Engine.Error.{RetryError}
use tenacious.Engine.Op.{stateless_op}
use tenacious.Engine.Sync.{Retry}
use tenacious.Engine.Sync.Builder.{retry_ext, from_op, from_parts, with_stop, with_wait, with_clock}
use tenacious.Engine.Sync.Spec.{Answer, resolve, Meets}
use tenacious.Engine.Sync.Spec.Answers.{switch, resolve-switch}
use tenacious.Examples.{with_attempts, call_built}
use tenacious.Examples.Plain.{Answers, call-Answers, plain-Meets, virtual-Undisturbed}

abbrev pub Fetched : Type 0
Fetched = Result String String

module _ {World : Type 0} (failures_left : Ref World ℕ) where
  -- The closure. The cell holds a `u32`.
  unfoldable pub fetch_config : M World Fetched
  fetch_config w =
      if ltb 0 (failures_left.get w)
      then (err "connection refused", failures_left.set (failures_left.get w - 1) w)
      else (ok "config_value=42", w)

  module _ (f : Float) (system : SyncClock World) (clock : Ref World VirtualClock) where
    config_retry : Option (Retry World String String Fetched)
    unfolding fetch_config retry_ext with_wait with_clock fixed fixed_wait sync_clock
    config_retry =
        Option.map (λ self. with_clock (sync_clock clock) self)
          (Option.map (λ self. with_wait (fixed_wait (fixed 10_000_000)) self)
            (with_attempts 5 (retry_ext f system result_outcome fetch_config)))

    unfoldable pub call_config : ℕ → M World (Option (Result String (RetryError String Fetched)))
    unfolding config_retry Virtual.new
    call_config fuel w = call_built fuel config_retry (clock.set Virtual.new w)

abbrev refused : Fetched
refused = err "connection refused"

abbrev granted : Fetched
granted = ok "config_value=42"

-- What comes of 5 attempts when `n` failures are left.
abbrev pub outcome_of : ℕ → Answer String String Fetched
outcome_of n =
    if leb n 4
    then (ok "config_value=42", suc n)
    else (err (RetryError.exhausted (err "connection refused")), 5)

resolve-reply :
    (n : ℕ) → resolve result_outcome.classify (switch refused granted n) 4 1 ≡ outcome_of n
unfolding result_outcome
resolve-reply n = resolve-switch result_outcome.classify refused granted 4 n tt tt

module _ {World : Type 0} (failures_left : Ref World ℕ) (n : ℕ) where
  -- Before the `k`th call, where `n` failures were left at the start.
  abbrev pub BeforeCall : ℕ → World → Type 0
  BeforeCall k w = (1 ≤ k) × (failures_left.get w ≡ n - (k - 1))

  fetch_config-BeforeCall :
      (cell : IsCell failures_left) (k : ℕ) (w : World)
      → BeforeCall k w
      → ((fetch_config failures_left w).0 ≡ switch refused granted n k)
        × BeforeCall (suc k) (fetch_config failures_left w).1
  unfolding fetch_config
  fetch_config-BeforeCall cell k w (pos, at) = elim (Bool-cases (ltb 0 (failures_left.get w))) [
    | inl e ↦
        let some_left : 0 < failures_left.get w = ground arith in
        rw (e, le→leb k n (omega arith)) (refl, (omega arith, cell.get-set _ w ∙ omega arith))
    | inr e ↦
        let none_left : failures_left.get w ≡ 0 = ground arith in
        rw (e, lt→not_leb k n (omega arith)) (refl, (omega arith, omega arith))
  ]

-- The retry outlasts the failures if there are fewer of them than attempts. From every world with
-- `n` failures left, in a cell that the clock does not touch, `call` gives `Ok` after `n + 1` calls if
-- `n` is less than 5, and otherwise `Exhausted` with the error after 5 calls. Fuel 5 is enough, and
-- the failures that are left are `n` less the calls that failed.
call_config-eq :
    {World : Type 0} (failures_left : Ref World ℕ) (f : Float) (system : SyncClock World)
    (clock : Ref World VirtualClock) (cell : IsCell failures_left) (w : World)
    → Apart failures_left clock
    → let n = failures_left.get w in
      Answers
        (BeforeCall failures_left n)
        (call_config failures_left f system clock 5 w)
        (outcome_of n)
unfolding call_config config_retry retry_ext from_op from_parts with_attempts attempts with_stop
    with_wait with_clock call_built default_classifier stateless_op
call_config-eq failures_left f system clock cell w apart =
    let n = failures_left.get w in
    call-Answers (BeforeCall failures_left n) _ 5 _ _ (
      subst (Meets (BeforeCall failures_left n) _) (resolve-reply n) (
        plain-Meets (stateless_op (fetch_config failures_left)) (default_classifier result_outcome)
          5 10_000_000 (sync_clock clock) (BeforeCall failures_left n) result_outcome.classify
          (switch refused granted n) (clock.set Virtual.new w) (λ outcome v. refl)
          (virtual-Undisturbed _ _ clock (λ outcome v. refl)
            (λ c v k (pos, at). (pos, apart c v ∙ at)))
          (λ k state v here. fetch_config-BeforeCall failures_left n cell k v here) (omega arith)
          (omega arith) (omega arith, apart _ w ∙ omega arith)))
