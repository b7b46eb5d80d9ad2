-- ===== src/Examples/CustomOutcome.antt =====
-- examples/custom-outcome.rs: a type that classifies itself, polled until it settles.
use mathlib.Core.Option
use mathlib.Core.Path.{subst}
use Prim.Native.String.{String}
use tenacious.Prelude.{
  ℕ, zero, suc, Option, Result, ok, err, M, Ref, List, length, ◌≤◌, ◌≡◌, refl, ap, ◌∙◌, arith,
  IsCell, Apart,
}
use tenacious.Float.{Float}
use tenacious.Decision.{Outcome, Verdict, default_classifier}
use tenacious.Wait.Strategies.{fixed, fixed_wait}
use tenacious.Clock.{SyncClock}
use tenacious.Clock.Virtual
use tenacious.Clock.Virtual.{VirtualClock, sync_clock}
use tenacious.Engine.Error.{RetryError}
use tenacious.Engine.Sync.{Retry}
use tenacious.Engine.Sync.Builder.{retry, from_op, from_parts, with_stop, with_wait, with_clock}
use tenacious.Stop.{attempts}
use tenacious.Engine.Sync.Spec.{Answer, final, early, resolve}
use tenacious.Examples.Plain.{Answers, call-Answers, plain-Meets, virtual-Undisturbed}
use tenacious.Examples.Script.{scripted, entry, BeforeCall, scripted-entry}
use tenacious.Examples.{with_attempts, call_built}

-- The version of `live` is a `u32`.
pub data Rollout : Type 0 where
  in_progress : Rollout
  live : ℕ → Rollout
  failed : String → Rollout

unfoldable pub classify : Rollout → Verdict ℕ String Rollout
classify (Rollout.live version) = Verdict.accept version
classify (Rollout.failed reason) = Verdict.abort reason
classify Rollout.in_progress = Verdict.retry Rollout.in_progress

unfoldable pub rollout_outcome : Outcome Rollout ℕ String
unfolding classify
rollout_outcome = record { classify = classify }

module _ {World : Type 0} (f : Float) (system : SyncClock World)
    (clock : Ref World VirtualClock) where
  -- The builder of `await_rollout`, with 10 ms between the polls.
  rollout_retry : M World Rollout → Option (Retry World ℕ String Rollout)
  unfolding retry with_wait with_clock rollout_outcome fixed fixed_wait sync_clock
  rollout_retry poll =
      Option.map
        (λ self. with_clock (sync_clock clock) (with_wait (fixed_wait (fixed 10_000_000)) self))
        (with_attempts 10 (retry f system rollout_outcome (λ _. poll)))

  unfoldable pub await_rollout :
      ℕ → M World Rollout → M World (Option (Result ℕ (RetryError String Rollout)))
  unfolding rollout_retry Virtual.new
  await_rollout fuel poll w = call_built fuel (rollout_retry poll) (clock.set Virtual.new w)

-- The `k`th poll gives the version or the reason if it is settled, and else leaves it to the later
-- ones.
abbrev settled_at : Rollout → ℕ → Answer ℕ String Rollout → Answer ℕ String Rollout
settled_at Rollout.in_progress k rest = rest
settled_at (Rollout.live version) k rest = (ok version, k)
settled_at (Rollout.failed reason) k rest = (err (RetryError.aborted reason), k)

-- What the rollouts come to, from the `k`th poll on, of which `more` may follow it.
abbrev pub settled : (ℕ → Rollout) → (more : ℕ) → (k : ℕ) → Answer ℕ String Rollout
settled rollouts zero k =
    settled_at (rollouts k) k (err (RetryError.exhausted Rollout.in_progress), k)
settled rollouts (suc more) k = settled_at (rollouts k) k (settled rollouts more (suc k))

final-settled_at :
    (r : Rollout) (k : ℕ)
    → final (classify r) k ≡ settled_at r k (err (RetryError.exhausted Rollout.in_progress), k)
unfolding classify
final-settled_at Rollout.in_progress k = refl
final-settled_at (Rollout.live version) k = refl
final-settled_at (Rollout.failed reason) k = refl

early-settled_at :
    (r : Rollout) (k : ℕ) (rest : Answer ℕ String Rollout)
    → early (classify r) k rest ≡ settled_at r k rest
unfolding classify
early-settled_at Rollout.in_progress k rest = refl
early-settled_at (Rollout.live version) k rest = refl
early-settled_at (Rollout.failed reason) k rest = refl

resolve-settled :
    (rollouts : ℕ → Rollout) (more k : ℕ)
    → resolve classify rollouts more k ≡ settled rollouts more k
resolve-settled rollouts zero k = final-settled_at (rollouts k) k
resolve-settled rollouts (suc more) k =
    early-settled_at (rollouts k) k (resolve classify rollouts more (suc k))
    ∙ ap (settled_at (rollouts k) k) (resolve-settled rollouts more (suc k))

module _ {World : Type 0} (f : Float) (system : SyncClock World) (clock : Ref World VirtualClock)
    (idx : Ref World ℕ) (script : List Rollout) (some_entry : 1 ≤ length script) where
  -- `await_rollout` on a script polls ten times at most: the first `Live` among the entries, the last
  -- one repeated, gives its version, the first `Failed` aborts with its reason, whichever is first,
  -- and ten polls in progress give `Exhausted`. It needs fuel 10, on any script with an entry, in
  -- every world where the index of the script is 0 and stands in a cell that the clock does not
  -- touch, and it reads as many entries as the answer has attempts.
  pub await_rollout-settled :
      (w : World)
      → IsCell idx
      → Apart idx clock
      → idx.get w ≡ 0
      → Answers
          (BeforeCall idx script some_entry)
          (await_rollout f system clock 10 (scripted idx script some_entry) w)
          (settled (entry idx script some_entry) 9 1)
  unfolding await_rollout rollout_retry retry from_op from_parts default_classifier with_attempts
      with_wait with_clock with_stop call_built attempts rollout_outcome
  await_rollout-settled w lawful apart fresh =
      subst
        (Answers (BeforeCall idx script some_entry)
          (await_rollout f system clock 10 (scripted idx script some_entry) w))
        (resolve-settled (entry idx script some_entry) 9 1)
        (call-Answers (BeforeCall idx script some_entry) _ 10 _ _ (
          plain-Meets (λ _. scripted idx script some_entry) (default_classifier rollout_outcome) 10
            10_000_000 (sync_clock clock) (BeforeCall idx script some_entry) classify
            (entry idx script some_entry) (clock.set Virtual.new w) (λ outcome v. refl)
            (virtual-Undisturbed _ _ clock (λ outcome v. refl)
              (λ c v k (pos, at). (pos, apart c v ∙ at)))
            (λ k state v here. scripted-entry idx script some_entry lawful k v here) (omega arith)
            (omega arith) (omega arith, apart _ w ∙ fresh ∙ omega arith)))
