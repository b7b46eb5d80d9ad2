-- ===== src/Examples/HooksAndStats.antt =====
-- examples/hooks-and-stats.rs: a hook that prints, and the stats of a loop.
use mathlib.Core.Option
use Prim.Native.String.{String}
use tenacious.Prelude.{ℕ, ◌≡◌, refl, Option, some, Result, ok, err, M, pure, ◌>>◌, skip, Ref}
use tenacious.Float.{Float}
use tenacious.Decision.{default_classifier, result_outcome}
use tenacious.Stop.{attempts, after_attempts}
use tenacious.Wait.Strategies.{fixed, fixed_wait}
use tenacious.Clock.{SyncClock}
use tenacious.Clock.Virtual
use tenacious.Clock.Virtual.{VirtualClock, sync_clock}
use tenacious.Engine.Hooks
use tenacious.Engine.State.{AttemptState}
use tenacious.Engine.Op.{stateless_op}
use tenacious.Engine.Error.{RetryError}
use tenacious.Engine.Step.{step}
use tenacious.Engine.Sync.{Finished, run, loop, round, resume, elapsed}
use tenacious.Engine.Sync.WithStats
use tenacious.Engine.Sync.WithStats.{RetryWithStats, with_stats}
use tenacious.Engine.Sync.Builder.{
  retry_ext, from_op, from_parts, with_stop, with_wait, with_clock, after_attempt,
}
use tenacious.Examples.{with_attempts}

abbrev pub Ping : Type 0
Ping = Result (Unit {0}) String

abbrev pub unavailable : String
unavailable = "control plane unavailable"

-- `eprintln!` of the line for an attempt and its error is the standard library's.
module _ {World : Type 0} (eprintln : ℕ → String → M World (Unit {0})) where
  abbrev print_error : ℕ → Ping → M World (Unit {0})
  print_error attempt (ok _) = skip
  print_error attempt (err error) = eprintln attempt error

  unfoldable pub log_failure : AttemptState Ping → M World (Unit {0})
  log_failure state = print_error state.attempt state.outcome

  -- What the loop does: it prints after each attempt, and sleeps between two of them.
  abbrev pub lines : Ref World VirtualClock → M World (Unit {0})
  lines clock = do
    eprintln 1 unavailable
    (sync_clock clock).wait 5_000_000
    eprintln 2 unavailable
    (sync_clock clock).wait 5_000_000
    eprintln 3 unavailable

  module _ (f : Float) (system : SyncClock World) (clock : Ref World VirtualClock) where
    -- `clock` is the cell of the `VirtualClock::new()` of the chain.
    unfoldable pub ping_retry : Option (RetryWithStats World (Unit {0}) String Ping)
    unfolding log_failure retry_ext with_wait after_attempt with_clock with_stats fixed fixed_wait
        sync_clock
    ping_retry =
        Option.map (λ self. with_stats self)
          (Option.map (λ self. with_clock (sync_clock clock) self)
            (Option.map (λ self. after_attempt log_failure self)
              (Option.map (λ self. with_wait (fixed_wait (fixed 5_000_000)) self)
                (with_attempts 3 (retry_ext f system result_outcome (pure (err unavailable)))))))

    -- From every world, whatever a printed line does to it, the retry is built without a panic, and
    -- its `call` returns with fuel 3, after three attempts and 10 ms of waits, `Exhausted` with the
    -- error. It has printed a line after each attempt, with the number of the attempt, and slept 5 ms
    -- between two lines, in this order, and done nothing else to the world.
    pub ping_retry-lines :
        (w : World)
        → (self : RetryWithStats World (Unit {0}) String Ping) × (ping_retry ≡ some self)
          × (g : Finished (Unit {0}) String Ping) × (WithStats.call 3 self w
              ≡ (some g, (lines clock w).1))
          × (g.0 ≡ err (RetryError.exhausted (err unavailable)))
          × (g.1.attempts ≡ 3)
          × (g.1.total_wait ≡ 10_000_000)
    unfolding ping_retry WithStats.call log_failure retry_ext from_op from_parts with_attempts
        attempts after_attempts with_stop with_wait after_attempt with_clock with_stats fixed
        fixed_wait sync_clock Virtual.now run loop round resume elapsed step stateless_op
        default_classifier result_outcome Hooks.new Hooks.chain_after_attempt Hooks.hook_chain
    ping_retry-lines w = (_, refl, _, refl, refl, refl, refl)
