-- ===== src/Examples/PollingTerminalFailure.antt =====
-- examples/polling-terminal-failure.rs: a job that is pending, done, or failed for good.
use mathlib.Core.Option
use Prim.Native.String.{String}
use tenacious.Prelude.{
  ℕ, ◌+◌, ◌-◌, min, ◌≤◌, ◌≡◌, refl, ◌∙◌, arith, Option, Result, ok, err, List, length, M, pure, Ref,
  IsCell, Apart,
}
use tenacious.Float.{Float}
use tenacious.Decision.{Verdict, verdict_into, closure_classifier, result_outcome}
use tenacious.Stop.{attempts}
use tenacious.Wait.Strategies.{fixed, fixed_wait}
use tenacious.Clock.{SyncClock}
use tenacious.Clock.Virtual
use tenacious.Clock.Virtual.{VirtualClock, sync_clock}
use tenacious.Engine.Error.{RetryError}
use tenacious.Engine.Sync.{Retry}
use tenacious.Engine.Sync.Builder.{
  retry, from_op, from_parts, decide, with_stop, with_wait, with_clock,
}
use tenacious.Engine.Sync.Spec.{resolve}
use tenacious.Examples.{with_attempts, call_built}
use tenacious.Examples.Plain.{Answers, call-Answers, plain-Meets, virtual-Undisturbed}
use tenacious.Examples.Script.{get, scripted, entry, BeforeCall, scripted-entry}

data JobStatus : Type 0 where
  job_pending : JobStatus
  job_done : JobStatus

data JobError : Type 0 where
  transient : JobError
  fatal : String → JobError

abbrev Poll : Type 0
Poll = Result JobStatus JobError

-- The closure that `decide` is given.
unfoldable judge : Poll → Verdict JobStatus JobError Poll
judge (ok JobStatus.job_done) = Verdict.accept JobStatus.job_done
judge (err (JobError.fatal msg)) = Verdict.abort (JobError.fatal msg)
judge (ok JobStatus.job_pending) = Verdict.retry (ok JobStatus.job_pending)
judge (err JobError.transient) = Verdict.retry (err JobError.transient)

module _ {World : Type 0} (f : Float) (system : SyncClock World)
    (clock : Ref World VirtualClock) where
  -- The builder of `poll_until_done`, with 10 ms between the polls.
  job_retry : M World Poll → Option (Retry World JobStatus JobError Poll)
  unfolding retry decide with_wait with_clock verdict_into fixed fixed_wait sync_clock judge
  job_retry poller =
      Option.map (λ self. with_clock (sync_clock clock) self)
        (with_attempts 10 (
          Option.map (λ self. with_wait (fixed_wait (fixed 10_000_000)) self)
            (Option.map (λ self. decide verdict_into (λ outcome. pure (judge outcome)) self)
              (retry f system result_outcome (λ _. poller)))))

  unfoldable poll_until_done :
      ℕ → M World Poll → M World (Option (Result JobStatus (RetryError JobError Poll)))
  unfolding job_retry Virtual.new
  poll_until_done fuel poller w = call_built fuel (job_retry poller) (clock.set Virtual.new w)

module _ {World : Type 0} (idx : Ref World ℕ) (script : List Poll)
    (some_entry : 1 ≤ length script) where
  unfoldable scripted_poller : M World Poll
  scripted_poller w =
      let i = min (idx.get w) (length script - 1) in (get script i (omega arith), idx.set (i + 1) w)

module _ {World : Type 0} (f : Float) (system : SyncClock World) (clock : Ref World VirtualClock)
    (idx : Ref World ℕ) (script : List Poll) (some_entry : 1 ≤ length script) where
  -- `poll_until_done` on a script gives the answer of the specification of the loop for ten attempts
  -- whose outcomes are the entries of the script, the last one repeated: `Done` or a fatal failure,
  -- whichever is first among them, or else `Exhausted`. It needs fuel 10, on any script with an
  -- entry, in every world where the index of the script is 0 and stands in a cell that the clock does
  -- not touch, and it reads as many entries as the answer has attempts.
  poll_until_done-resolve :
      (w : World)
      → IsCell idx
      → Apart idx clock
      → idx.get w ≡ 0
      → Answers
          (BeforeCall idx script some_entry)
          (poll_until_done f system clock 10 (scripted_poller idx script some_entry) w)
          (resolve judge (entry idx script some_entry) 9 1)
  unfolding poll_until_done job_retry retry from_op from_parts decide closure_classifier
      with_attempts with_wait with_clock with_stop call_built attempts verdict_into scripted_poller
      scripted
  poll_until_done-resolve w lawful apart fresh =
      call-Answers (BeforeCall idx script some_entry) _ 10 _ _ (
        plain-Meets (λ _. scripted_poller idx script some_entry)
          (closure_classifier verdict_into (λ outcome. pure (judge outcome))) 10 10_000_000
          (sync_clock clock) (BeforeCall idx script some_entry) judge (entry idx script some_entry)
          (clock.set Virtual.new w) (λ outcome v. refl)
          (virtual-Undisturbed _ _ clock (λ outcome v. refl)
            (λ c v k (pos, at). (pos, apart c v ∙ at)))
          (λ k state v here. scripted-entry idx script some_entry lawful k v here) (omega arith)
          (omega arith) (omega arith, apart _ w ∙ fresh ∙ omega arith))
