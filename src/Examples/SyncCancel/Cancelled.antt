-- ===== src/Examples/SyncCancel/Cancelled.antt =====
-- Pattern 2 of examples/sync-cancel.rs: how soon the flag ends the loop.
use tenacious.Prelude.{
  ◌<◌, ℕ, suc, ◌≡◌, refl, ap, ◌∙◌, arith, Bool, Bool-cases, inl, inr, some, ok, err, Ref, IsCell,
  Apart, leb, le→leb, lt→not_leb, pure,
}
use tenacious.Float.{Float}
use tenacious.Predicate.{error}
use tenacious.Decision
use tenacious.Decision.{Verdict, default_classifier, result_outcome}
use tenacious.Stop.{attempts}
use tenacious.Clock.{SyncClock}
use tenacious.Engine.Error.{RetryError}
use tenacious.Engine.Sync.{Retry, Finished, u32_max, run}
use tenacious.Engine.Sync.Builder.{retry, from_op, from_parts, with_stop, with_wait, when}
use tenacious.Engine.Sync.Spec.{resolve}
use tenacious.Engine.Sync.Spec.Answers.{Retries, resolve-switch, resolve-Retries}
use tenacious.Examples.{with_attempts}
use tenacious.Examples.SyncCancel.{ServiceError, is_transient, eager_retry, cancel_retry}
use tenacious.Examples.SyncCancel.Calls.{Reply, refused, judge, reply, calls_left, within, answered}

module _ {World : Type 0} (f : Float) (system : SyncClock World) (flag : Ref World Bool)
    (counter : Ref World ℕ) (flag_cell : IsCell flag) (counter_cell : IsCell counter)
    (flag_apart : Apart flag counter) (counter_apart : Apart counter flag)
    (quiet_now : (w : World)
      → (flag.get (system.now w).1 ≡ flag.get w) × (counter.get (system.now w).1 ≡ counter.get w))
    (quiet_wait : (delay : _) (w : World)
      → (flag.get (system.wait delay w).1 ≡ flag.get w)
        × (counter.get (system.wait delay w).1 ≡ counter.get w)) where
  -- The flag ends the loop of pattern 2 at the next attempt, where `Cancelled` is not retried. From
  -- every world whose counter is under `u32::MAX`, on any clock that does not touch the two cells, the
  -- retry is built without a panic and its `run` returns with fuel 100. The result is `Aborted` with
  -- `Cancelled`, and the attempts are one more than the calls up to the one that sets the flag: one
  -- attempt if the flag is set at the start, and otherwise `2 - n + 2`, where the counter starts at
  -- `n` and `2 - n` stops at 0.
  pub cancel_retry-aborted :
      (w : World)
      → counter.get w < u32_max
      → (self : Retry World (Unit {0}) ServiceError Reply) × (cancel_retry f system flag counter
          ≡ some self)
        × (g : Finished (Unit {0}) ServiceError Reply) × ((run 100 self w).0 ≡ some g)
        × (g.0 ≡ err (RetryError.aborted ServiceError.cancelled))
        × (g.1.attempts ≡ suc (calls_left (flag.get w) (counter.get w)))
  unfolding cancel_retry eager_retry retry from_op from_parts with_attempts attempts with_stop
      with_wait when Decision.when error is_transient
  cancel_retry-aborted w small =
      let j = calls_left (flag.get w) (counter.get w) in
      let le = within (flag.get w) (counter.get w) in
      let (g, e, result, count) =
        answered system flag counter flag_cell counter_cell flag_apart counter_apart quiet_now
          quiet_wait _ judge w small classified quiet in
      let settled : resolve judge (reply j) 99 1
          ≡ (err (RetryError.aborted ServiceError.cancelled), suc j) =
        resolve-switch judge refused (err ServiceError.cancelled) 99 j tt tt
        ∙ rw (le→leb j 99 (omega arith)) refl in
      (_, refl, g, e, result ∙ ap (λ a. a.0) settled, count ∙ ap (λ a. a.1) settled)
    where
      classified :
          (outcome : Reply) (v : World)
          → (Decision.when (error (λ e. pure (is_transient e))) outcome v).0 ≡ judge outcome
      classified (ok value) v = refl
      classified (err (ServiceError.transient why)) v = refl
      classified (err ServiceError.cancelled) v = refl

      quiet :
          (outcome : Reply) (v : World)
          → (Decision.when (error (λ e. pure (is_transient e))) outcome v).1 ≡ v
      quiet (ok value) v = refl
      quiet (err (ServiceError.transient why)) v = refl
      quiet (err ServiceError.cancelled) v = refl

  -- Without the predicate the flag does not end the loop: the default classifier retries `Cancelled`
  -- as any other error. From every world whose counter is under `u32::MAX`, on any clock that
  -- does not touch the two cells, the retry
  -- is built without a panic, and its `run` returns with fuel 100, `Exhausted` with `Cancelled` as the
  -- last outcome, and all 100 attempts made.
  pub eager_retry-exhausted :
      (w : World)
      → counter.get w < u32_max
      → (self : Retry World (Unit {0}) ServiceError Reply) × (eager_retry f system flag counter
          ≡ some self)
        × (g : Finished (Unit {0}) ServiceError Reply) × ((run 100 self w).0 ≡ some g)
        × (g.0 ≡ err (RetryError.exhausted (err ServiceError.cancelled)))
        × (g.1.attempts ≡ 100)
  unfolding eager_retry retry from_op from_parts with_attempts attempts with_stop with_wait
      default_classifier result_outcome
  eager_retry-exhausted w small =
      let j = calls_left (flag.get w) (counter.get w) in
      let le = within (flag.get w) (counter.get w) in
      let classify = result_outcome.classify in
      let (g, e, result, count) =
        answered system flag counter flag_cell counter_cell flag_apart counter_apart quiet_now
          quiet_wait (default_classifier result_outcome) classify w small (λ outcome v. refl)
          (λ outcome v. refl) in
      let stuck : resolve classify (reply j) 99 1
          ≡ (err (RetryError.exhausted (err ServiceError.cancelled)), 100) =
        resolve-Retries classify (reply j) 99 1 (λ i a b. refused_again j i)
        ∙ rw (lt→not_leb 100 j (omega arith)) refl in
      (_, refl, g, e, result ∙ ap (λ a. a.0) stuck, count ∙ ap (λ a. a.1) stuck)
    where
      refused_again : (j i : ℕ) → Retries (result_outcome.classify (reply j i))
      refused_again j i = elim (Bool-cases (leb i j)) [ inl e ↦ rw e tt | inr e ↦ rw e tt ]
