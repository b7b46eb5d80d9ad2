-- ===== src/Clock/Adapters/Gloo.antt =====
-- src/clock.rs: `GlooClock`, on `gloo_timers::future::TimeoutFuture`, whose lengths are milliseconds.
use tenacious.Prelude.{ℕ, ◌/◌, ◌^◌, ◌-◌, M, Option, none, some, min, leb, if◌then◌else◌, ◌≡◌, arith}
use tenacious.Duration
use tenacious.Duration.{Duration}
use tenacious.Clock.{AsyncClock}
use tenacious.Clock.Adapters.{Timers}

-- The reader of the time is the caller's.
pub record GlooClock (World : Type 0) : Type 0 where
  pub now : M World Duration

unfoldable with_now : {World : Type 0} → M World Duration → GlooClock World
with_now now = record { now = now }

-- The milliseconds that `wait_async` waits for; `none` is the panic of `expect`.
pub gloo_millis : Duration → Option ℕ
gloo_millis dur =
    let millis = min (dur / 1_000_000) (2 ^ 31 - 1) in
    if leb millis (2 ^ 32 - 1) then some millis else none

-- The conversion never panics, and gives the whole milliseconds of the duration, but `i32::MAX` of
-- them at most.
pub gloo_millis-eq : (dur : Duration) → gloo_millis dur ≡ some (min (dur / 1_000_000) (2 ^ 31 - 1))
unfolding gloo_millis
gloo_millis-eq dur = ground arith

-- The panic, which never comes, is a timer of length 0 here.
unfoldable async_clock :
    {World Timer : Type 0} → Timers World ℕ Timer → GlooClock World → AsyncClock World Timer
unfolding gloo_millis
async_clock timers self = record {
  now = self.now;
  wait_async = λ dur. timers.after (Duration.unwrap_or (gloo_millis dur) 0);
  poll_wait = timers.poll;
}
