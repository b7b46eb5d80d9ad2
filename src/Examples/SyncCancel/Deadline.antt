-- ===== src/Examples/SyncCancel/Deadline.antt =====
-- Pattern 1 of examples/sync-cancel.rs: a deadline on any clock.
use Prim.Native.String.{String}
use tenacious.Prelude.{ℕ, ◌+◌, ◌≤◌, ◌≡◌, refl, arith, some, Result, ok, err, pure}
use tenacious.Duration
use tenacious.State.{RetryState}
use tenacious.Float.{Float}
use tenacious.Decision.{Verdict, default_classifier, result_outcome}
use tenacious.Stop.{attempts, after_attempts}
use tenacious.Wait.Strategies.{fixed, fixed_wait}
use tenacious.Clock.{SyncClock}
use tenacious.Clock.Virtual
use tenacious.Clock.Virtual.{VirtualClock, sync_clock}
use tenacious.Engine.Sync.Failing.{Failing, run_failing-eq}
use tenacious.Prelude.{Ref, IsCell, leb, lt→not_leb}
use tenacious.Clock.Contract.{IsCoherent, Onward}
use tenacious.Engine.Hooks
use tenacious.Engine.Op.{stateless_op}
use tenacious.Engine.Error.{RetryError}
use tenacious.Engine.Step.Laws.{verdict_of}
use tenacious.Engine.Sync.{Retry, Finished, run}
use tenacious.Engine.Sync.Builder.{
  retry_ext, from_op, from_parts, with_stop, with_wait, with_timeout,
}
use tenacious.Engine.Sync.Frame.{Moves}
use tenacious.Engine.Sync.Outcome.{run-Attempted}
use tenacious.Engine.Sync.Expiry.{run_timeout-total}
use tenacious.Engine.Sync.Rounds.{run-le}
use tenacious.Examples.{with_attempts}
use tenacious.Examples.SyncCancel.{deadline_retry}

-- Only this result has the verdict `Retry` on the outcome.
retry_inv :
    {R A O : Type 0} (result : Result R (RetryError A O)) (outcome : O)
    → Verdict.retry outcome ≡ verdict_of result
    → result ≡ err (RetryError.exhausted outcome)
retry_inv (ok value) outcome h = cc
retry_inv (err (RetryError.aborted last)) outcome h = cc
retry_inv (err (RetryError.exhausted last)) outcome h = cc

-- What `deadline_retry` builds.
abbrev limited :
    {World : Type 0} → SyncClock World → Retry World String String (Result String String)
limited system = record {
  op = stateless_op (pure (err "service unavailable"));
  classifier = default_classifier result_outcome;
  stop = after_attempts (record { max = 100 });
  wait = fixed_wait (fixed 100_000_000);
  clock = system;
  hooks = Hooks.new;
  timeout = some 250_000_000;
}

module _ {World : Type 0} (f : Float) (system : SyncClock World) (Ready : World → Type 0)
    (coherent : IsCoherent system Ready) where
  stays : (w : World) → Onward system Ready w w
  stays w ready = (ready, omega arith)

  limited-Moves : Moves (Onward system Ready) (limited system)
  unfolding stateless_op default_classifier after_attempts fixed_wait Hooks.new
  limited-Moves = record {
    op = λ state w. stays w;
    rest = record {
      classifier = λ outcome w. stays w;
      stop = λ state w. stays w;
      wait = λ state w. stays w;
      before_attempt = λ view w. stays w;
      after_attempt = λ view w. stays w;
      on_exit = λ view w. stays w;
    };
  }

  asks : (state : RetryState) (w : World) → 100_000_000 ≤ ((limited system).wait state w).0
  unfolding fixed_wait fixed
  asks state w = omega arith

  given-up :
      (fuel : ℕ) (w : World) {g : Finished String String (Result String String)}
      → (run fuel (limited system) w).0 ≡ some g
      → g.0 ≡ err (RetryError.exhausted (err "service unavailable"))
  unfolding stateless_op default_classifier result_outcome
  given-up fuel w {g} h =
      let ((state, v, v', _, judged), _) = run-Attempted (limited system) fuel w h in
      retry_inv g.0 (err "service unavailable") judged

  -- The deadline of pattern 1 ends the loop, not the limit of 100 attempts: on every clock that keeps
  -- its contract and can show the deadline, the retry is built without a panic, and its `run` returns
  -- with fuel 4, after 4 attempts at most, with `Exhausted` and the error of the operation. The
  -- clock is ready after its first reading.
  deadline_retry-exhausted :
      (w : World)
      → Ready (system.now w).1
      → (system.now w).0 + 250_000_000 ≤ Duration.max
      → (self : Retry World String String (Result String String)) × (deadline_retry f system
          ≡ some self)
        × (g : Finished String String (Result String String)) × ((run 4 self w).0 ≡ some g)
        × (g.0 ≡ err (RetryError.exhausted (err "service unavailable")))
        × (g.1.attempts ≤ 4)
  unfolding deadline_retry retry_ext from_op from_parts with_attempts attempts with_stop with_wait
      with_timeout
  deadline_retry-exhausted w ready fits =
      let (g, e) =
        run_timeout-total (limited system) Ready coherent limited-Moves 250_000_000 100_000_000 refl
          (omega arith) asks w ready fits in
      (limited system, refl, g, e, given-up 4 w e, run-le (limited system) 4 w g e)

limited-Failing :
    {World : Type 0} (cell : Ref World VirtualClock)
    → Failing cell
        (err "service unavailable")
        (err "service unavailable")
        (leb 100)
        (λ k. 100_000_000)
        250_000_000
        (limited (sync_clock cell))
unfolding stateless_op default_classifier result_outcome after_attempts fixed_wait fixed sync_clock
    Virtual.now Hooks.new
limited-Failing cell = record {
  op = λ state w. refl;
  classifier = λ w. refl;
  stop = λ state w. refl;
  wait = λ state w. refl;
  now = λ w. refl;
  sleep = λ d w. refl;
  before_attempt = λ view w. refl;
  after_attempt = λ view w. refl;
  on_exit = λ view w. refl;
  timeout = refl;
}

-- On a virtual clock, on which only the waits take time, the deadline of pattern 1 comes after the
-- fourth attempt: from every world whose clock can show it, `run` returns with fuel 4, after 4
-- attempts, and the clock ends 250 ms later.
deadline_retry-fourth :
    {World : Type 0} (f : Float) (cell : Ref World VirtualClock) (w : World)
    → IsCell cell
    → (cell.get w).now + 250_000_000 ≤ Duration.max
    → (self : Retry World String String (Result String String)) × (deadline_retry f
          (sync_clock cell)
        ≡ some self)
      × (g : Finished String String (Result String String)) × (w' : World) × (run 4 self w
          ≡ (some g, w'))
      × (g.1.attempts ≡ 4)
      × ((cell.get w').now ≡ (cell.get w).now + 250_000_000)
unfolding deadline_retry retry_ext from_op from_parts with_attempts attempts with_stop with_wait
    with_timeout
deadline_retry-fourth f cell w lawful fits =
    let (w', e, shown) =
      run_failing-eq cell (err "service unavailable") (err "service unavailable") (leb 100)
        (λ k. 100_000_000) 250_000_000 (limited (sync_clock cell)) (limited-Failing cell) lawful
        100_000_000 3 100 w (omega arith) (omega arith) (omega arith) (λ k lt. lt→not_leb 100 k lt)
        (λ k. refl) (omega arith) (omega arith) fits in
    (limited (sync_clock cell), refl, _, w', e, refl, shown)
