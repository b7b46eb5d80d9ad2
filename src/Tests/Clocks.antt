-- ===== src/Tests/Clocks.antt =====
-- The clocks on a platform and a runtime that count.
use tenacious.Prelude.{
  ap, sym, ℕ, ◌+◌, ◌-◌, ◌*◌, ◌/◌, ◌≤◌, ◌≡◌, refl, inl, arith, none, some, Option, Ref, IsCell, Poll,
  pending, ready, leb, leb→le, Bool-cases, inr, if◌then◌else◌,
}
use tenacious.Duration.{Duration}
use tenacious.Clock.Contract.{IsCoherent}
use tenacious.Clock.System.{Platform, now, system_clock}
use tenacious.Clock.System.Laws.{now-Anchored, IsMonotonic, Anchored, system_clock-IsCoherent}
use tenacious.Clock.Adapters.{Instants, Timers, IsTimer}
use tenacious.Clock.Adapters.Gloo.{gloo_millis, gloo_millis-eq}
use tenacious.Clock.Adapters.Embassy
use tenacious.Clock.Adapters.Embassy.{EmbassyClock, to_embassy_ticks, async_clock}
use tenacious.Clock.Adapters.Embassy.Waits.{wait_async-covers}
use tenacious.Engine.Async.Reaches.{Completes, at_once, later}

-- Its clock moves on at each reading.
record Machine : Type 0 where
  pub time : ℕ
  pub anchor : Option Duration

abbrev platform : Platform Machine
platform = record {
  instant_now = λ m. (m.time, record m { time = m.time + 1 });
  sleep = λ dur m. (tt, record m { time = m.time + dur });
}

abbrev anchor_cell : Ref Machine (Option Duration)
anchor_cell = record { get = λ m. m.anchor; set = λ a m. record m { anchor = a } }

anchor_cell-IsCell : IsCell anchor_cell
anchor_cell-IsCell = record { get-set = λ a w. refl; set-set = λ a b w. refl }

platform-IsMonotonic : IsMonotonic platform anchor_cell
platform-IsMonotonic = record {
  monotonic = λ w. omega arith;
  sleep_covers = λ dur w. omega arith;
  anchor_kept = λ w. refl;
  anchor_slept = λ dur w. refl;
  set_onward = λ a w. omega arith;
}

abbrev booted : Machine
booted = record { time = 500; anchor = none }

-- The clock was first read at 500, and its reading was taken at 501.
abbrev half_a_second : Machine
half_a_second = record { time = 1000; anchor = some 500 }

system_clock-IsCoherent_example :
    IsCoherent (system_clock platform anchor_cell) (Anchored platform anchor_cell)
system_clock-IsCoherent_example =
    system_clock-IsCoherent platform anchor_cell anchor_cell-IsCell platform-IsMonotonic

anchored : half_a_second.anchor ≡ anchor_cell.get (now platform anchor_cell booted).1
unfolding now
anchored = refl

first_reading : Anchored platform anchor_cell (now platform anchor_cell booted).1
first_reading =
    now-Anchored platform anchor_cell anchor_cell-IsCell platform-IsMonotonic booted (inl refl)

-- A runtime whose world is the number of ticks so far; a poll of a timer takes one.
abbrev instants : Instants ℕ ℕ ℕ
instants = record { instant_now = λ w. (w, w); elapsed = λ origin w. (w - origin, w) }

abbrev poll_deadline : ℕ → ℕ → (Poll (Unit {0}) × ℕ) × ℕ
poll_deadline deadline w =
    if leb deadline w then ((ready tt, deadline), w) else ((pending, deadline), w + 1)

abbrev timers : Timers ℕ ℕ ℕ
timers = record { after = λ length w. (w + length, w); poll = poll_deadline }

pending_not_ready : Path (Poll (Unit {0})) pending (ready tt) → ⊥
pending_not_ready e = cc

-- A completed timer's deadline has come.
deadline_lem : {d w v : ℕ} → Completes poll_deadline d w tt v → d ≤ v
deadline_lem {d} {w} {v} (at_once e) = elim (Bool-cases (leb d w)) [
  | inl due ↦ let here = leb→le d w due in let same = ap (λ r. r.1) (rw due at e) in omega arith
  | inr early ↦ absurd (pending_not_ready (ap (λ r. r.0.0) (rw early at e)))
]
deadline_lem {d} {w} {v} (later e rest) = elim (Bool-cases (leb d w)) [
  | inl due ↦ absurd (pending_not_ready (sym (ap (λ r. r.0.0) (rw due at e))))
  | inr early ↦
      let same = ap (λ r. r.0.1) (rw early at e) in let there = deadline_lem rest in omega arith
]

timers-IsTimer : IsTimer instants timers (λ origin w. origin ≤ w)
timers-IsTimer = record {
  waits = λ origin length w v past ends. let due = deadline_lem ends in omega arith;
}

abbrev as_micros : ℕ → ℕ
as_micros ticks = ticks * 1_000_000 / 32_768

abbrev embassy_clock : EmbassyClock ℕ
embassy_clock = record { origin = 0 }

-- What is less than a microsecond is not waited for, and with Gloo what is less than a millisecond.
half_a_micro : to_embassy_ticks 32_768 500 ≡ 0
unfolding to_embassy_ticks
half_a_micro = refl

half_a_milli : gloo_millis 500_000 ≡ some 0
half_a_milli = gloo_millis-eq 500_000

-- 50 us are more than one tick.
two_ticks :
    let clock = async_clock instants timers 32_768 as_micros embassy_clock in
    let wait = clock.wait_async 50_000 100 in Completes clock.poll_wait wait.0 wait.1 tt 102
unfolding async_clock to_embassy_ticks
two_ticks = later refl (later refl (at_once refl))

wait_async-covers_example :
    (Embassy.now instants timers 32_768 as_micros embassy_clock 100).0 + 50_000 / 1000 * 1000
    ≤ (Embassy.now instants timers 32_768 as_micros embassy_clock 102).0
wait_async-covers_example =
    wait_async-covers instants timers (λ origin w. origin ≤ w) 32_768 as_micros embassy_clock 50_000
      100 102 timers-IsTimer (omega arith) (omega arith) (λ ticks. refl) (omega arith) two_ticks
