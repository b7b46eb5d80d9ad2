-- ===== src/Clock/Adapters/Tokio.antt =====
-- src/clock.rs: `TokioClock`, on `tokio::time::{Instant, sleep}`.
use tenacious.Prelude.{M, pure, ◌>>=◌}
use tenacious.Duration.{Duration}
use tenacious.Clock.{AsyncClock}
use tenacious.Clock.Adapters.{Instants, Timers}

pub record TokioClock (Instant : Type 0) : Type 0 where
  pub origin : Instant

module _ {World Instant Timer : Type 0} (instants : Instants World Instant Duration)
    (timers : Timers World Duration Timer) where
  unfoldable new : M World (TokioClock Instant)
  new = do origin ← instants.instant_now; pure (record { origin = origin })

  pub now : TokioClock Instant → M World Duration
  now self = instants.elapsed self.origin

  unfoldable pub async_clock : TokioClock Instant → AsyncClock World Timer
  unfolding now
  async_clock self = record {
    now = now self;
    wait_async = λ dur. timers.after dur;
    poll_wait = timers.poll;
  }
