-- ===== src/Examples/AsyncPolling/Ready.antt =====
-- What examples/async-polling.rs ends with, on any async clock.
use Prim.Native.String.{String}
use tenacious.Prelude.{
  ℕ, suc, ◌-◌, ◌≤◌, ◌<◌, Bool-cases, inl, inr, ◌≡◌, refl, ap, ◌∙◌, arith, some, ok, err, M, pure,
  ◌>>=◌, Ref, sym, IsCell, ltb, leb, le→leb, lt→not_leb, if◌then◌else◌,
}
use mathlib.Core.Path.{subst}
use tenacious.Duration.{Duration}
use tenacious.Float.{Float}
use tenacious.Predicate.{ok_when}
use tenacious.Decision
use tenacious.Decision.{Verdict}
use tenacious.Stop.{attempts}
use tenacious.Clock.{AsyncClock}
use tenacious.Engine.Error.{RetryError}
use tenacious.Engine.Op.{RetryOp}
use tenacious.Engine.Sync.{Finished, run}
use tenacious.Engine.Sync.Spec.{Answer, resolve, Meets}
use tenacious.Engine.Sync.Spec.Answers.{switch, resolve-switch}
use tenacious.Engine.Async.{AsyncRetry, into_run, block_on}
use tenacious.Engine.Async.Builder.{with_clock, from_parts}
use tenacious.Engine.Async.Reaches.{Completes, at_once}
use tenacious.Engine.Async.Parity.{block_on-run}
use tenacious.Policy
use tenacious.Policy.{retry_async}
use tenacious.Examples.Plain.{plain, plain-Meets}
use tenacious.Examples.AsyncPolling.{
  Status, is_ready, next_status, check_deploy_status, deploy_policy, deploy_retry,
}

-- What the predicate of `deploy_policy` makes of a status.
abbrev judge : Status → Verdict String String Status
judge (ok status) = if is_ready status then Verdict.accept status else Verdict.retry (ok status)
judge (err e) = Verdict.retry (err e)

abbrev until_ready : {World : Type 0} → Decision.Decide World String String Status
until_ready = Decision.until (ok_when (λ status. pure (is_ready status)))

until_ready-judge :
    {World : Type 0} (outcome : Status) (w : World) → until_ready outcome w ≡ (judge outcome, w)
unfolding Decision.until ok_when
until_ready-judge (ok status) w = elim (Bool-cases (is_ready status)) [
  | inl e ↦ rw e refl
  | inr e ↦ rw e refl
]
until_ready-judge (err e) w = refl

-- What comes of 10 attempts when `n` checks fail first.
abbrev pub outcome_of : ℕ → Answer String String Status
outcome_of n =
    if leb n 9 then (ok "ready", suc n) else (err (RetryError.exhausted (ok "deploying")), 10)

resolve-status : (n : ℕ) → resolve judge (switch (ok "deploying") (ok "ready") n) 9 1 ≡ outcome_of n
unfolding is_ready
resolve-status n = resolve-switch judge (ok "deploying") (ok "ready") 9 n tt tt

less : (n a left : ℕ) → left ≡ n - (suc a - 1) → left ≡ n - a
less n a left h = omega arith

module _ {World : Type 0} (checks_remaining : Ref World ℕ) where
  -- Before the `k`th call, where `n` checks were left at the start.
  abbrev BeforeCheck : ℕ → ℕ → World → Type 0
  BeforeCheck n k w = (1 ≤ k) × (checks_remaining.get w ≡ n - (k - 1))

  -- The operation that blocks until the status is there.
  abbrev check : RetryOp World Status
  check state = do status ← check_deploy_status checks_remaining state; pure (ok status)

  module _ (cell : IsCell checks_remaining) where
    check-BeforeCheck :
        (n k : ℕ) (state : _) (w : World)
        → BeforeCheck n k w
        → ((check state w).0 ≡ switch (ok "deploying") (ok "ready") n k)
          × BeforeCheck n (suc k) (check state w).1
    unfolding check_deploy_status next_status
    check-BeforeCheck n k state w (pos, at) = elim (Bool-cases (ltb 0 (checks_remaining.get w))) [
      | inl e ↦
          let some_left : 0 < checks_remaining.get w = ground arith in
          rw (e, le→leb k n (omega arith)) (refl, (omega arith, cell.get-set _ w ∙ omega arith))
      | inr e ↦
          let none_left : checks_remaining.get w ≡ 0 = ground arith in
          rw (e, lt→not_leb k n (omega arith)) (refl, (omega arith, omega arith))
    ]

    module _ (f : Float) {Timer : Type 0} (system clock : AsyncClock World Timer)
        (wait : Duration → M World (Unit {0}))
        (sleep_completes : (delay : Duration) (w : World)
          → let call = clock.wait_async delay w in
            Completes clock.poll_wait call.0 call.1 tt (wait delay w).1)
        (quiet_now : (w : World) → checks_remaining.get (clock.now w).1 ≡ checks_remaining.get w)
        (quiet_wait : (delay : Duration) (w : World)
          → checks_remaining.get (wait delay w).1 ≡ checks_remaining.get w) where
      -- The polling ends when the deployment is ready. On every async clock whose futures, polled
      -- until they are ready, end with the world of a blocking wait, and that does not touch the
      -- counter: the policy and the future are built without a panic, and from every world with `n`
      -- checks remaining, every executor that polls often enough, with enough fuel, gets the same
      -- result: `Ok("ready")` after `n + 1` attempts if `n` is less than 10, and otherwise `Exhausted`
      -- with `Ok("deploying")` after 10. The checks that remain are then `n` less the attempts.
      pub deploy_retry-ready :
          (w : World)
          → let n = checks_remaining.get w in
            (self : AsyncRetry World String Timer String String Status) × (deploy_retry
                checks_remaining f system clock
              ≡ some self)
            × (g : Finished String String Status) × (w' : World) × ((polls : ℕ) × (fuel : ℕ) × ((p
                    k : ℕ)
                  → polls ≤ p
                  → fuel ≤ k
                  → block_on p k (into_run self) w ≡ (some g, w')))
            × (g.0 ≡ (outcome_of n).0)
            × (g.1.attempts ≡ (outcome_of n).1)
            × (checks_remaining.get w' ≡ n - (outcome_of n).1)
      unfolding deploy_retry deploy_policy Policy.new Policy.with_stop Policy.with_wait Policy.until
          retry_async from_parts with_clock attempts
      deploy_retry-ready w =
          let n = checks_remaining.get w in
          let plain_check =
            plain check until_ready 10 25_000_000 (record { now = clock.now; wait = wait }) in
          let (g, e, result, count, (_, remain)) =
            subst (Meets (BeforeCheck n) _) (resolve-status n) (
              plain-Meets check until_ready 10 25_000_000 (record { now = clock.now; wait = wait })
                (BeforeCheck n) judge (switch (ok "deploying") (ok "ready") n) w
                (λ outcome v. ap (λ t. t.0) (until_ready-judge outcome v))
                record {
                  classifier_onto = λ outcome v k here.
                      subst (BeforeCheck n k) (ap (λ t. t.1) (sym (until_ready-judge outcome v)))
                        here;
                  now_onto = λ v k (pos, at). (pos, quiet_now v ∙ at);
                  wait_onto = λ delay v k (pos, at). (pos, quiet_wait delay v ∙ at);
                }
                (λ k state v here. check-BeforeCheck n k state v here) (omega arith) (omega arith)
                (omega arith, omega arith)) in
          (
            _,
            refl,
            g,
            _,
            block_on-run _ check wait (λ state v. at_once refl) sleep_completes 10 w
                (ap (λ o. (o, (run 10 plain_check w).1)) e),
            result,
            count,
            less n (outcome_of n).1 _ remain,
          )
