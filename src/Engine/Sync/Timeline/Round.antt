-- ===== src/Engine/Sync/Timeline/Round.antt =====
-- A round of the loop in src/engine/mod.rs, along its timeline.
use tenacious.Prelude.{
  List, ==→eq, if◌then◌else◌, ℕ, suc, ◌+◌, min, true, false, [], ◌∷◌, ◌++◌, ◌==◌, Bool-cases, inl,
  inr, some, ◌≡◌, refl, ap, ◌∙◌, Ref, arith,
}
use mathlib.Core.Path.{subst}
use mathlib.Core.List.{append-nil, append_assoc}
use tenacious.Duration.{Duration}
use tenacious.State.{for_attempt, with_elapsed, with_previous_delay}
use tenacious.Clock.Virtual.{VirtualClock}
use tenacious.Engine.State
use tenacious.Engine.Step.{Progress, Step, step, settle, state_of}
use tenacious.Engine.Step.Log.{number}
use tenacious.Engine.Sync.Frame.{settle-Rel}
use tenacious.Engine.Sync.Rules.{slept}
use tenacious.Engine.Sync.{Retry, Cursor, u32_max, elapsed, before_state, round, resume, loop}
use tenacious.Engine.Sync.Timeline.Step.{settle-done, settle-again}
use tenacious.Engine.Sync.Timeline.{
  Plan, moment, returned, state, pause, due, answer, pauses_before, Still, Timed,
}

module _ {World R A O : Type 0} (cell : Ref World VirtualClock) (Before : ℕ → World → Type 0)
    (plan : Plan R A O) (self : Retry World R A O) (timed : Timed cell Before plan self)
    (origin : Duration) where
  -- The variables of the loop when the attempt of the `i`th call begins.
  abbrev pub at : ℕ → Cursor
  at i = record {
    attempt = number i;
    previous_delay = (moment plan origin i).previous;
    total_wait = (moment plan origin i).waited;
  }

  progress : ℕ → Progress
  progress i = record {
    attempt = number i;
    elapsed = (state plan origin i).elapsed;
    previous_delay = (moment plan origin i).previous;
    total_wait = (moment plan origin i).waited;
  }

  abbrev settled : ℕ → World → Step R A O × World
  settled i w =
      settle (progress i) self.stop self.wait plan.timeout self.hooks
        (plan.classify (plan.outcomes i)) w

  settled-done :
      (i : ℕ) (w : World)
      → due plan origin i ≡ true
      → (settled i w).0 ≡ Step.done (answer plan origin i).0 (answer plan origin i).1
  unfolding progress state_of for_attempt with_elapsed with_previous_delay
  settled-done i w last =
      settle-done self.stop self.wait self.hooks plan.stops plan.asks timed.stop timed.wait
        plan.timeout (progress i) (plan.classify (plan.outcomes i)) w last

  settled-again :
      (i : ℕ) (w : World)
      → due plan origin i ≡ false
      → (settled i w).0 ≡ Step.again (pause plan origin i) (moment plan origin (suc i)).waited
  unfolding progress state_of for_attempt with_elapsed with_previous_delay moment
  settled-again i w more =
      settle-again self.stop self.wait self.hooks plan.stops plan.asks timed.stop timed.wait
        plan.timeout (progress i) (plan.classify (plan.outcomes i)) w more

  Still-trans :
      (u v w : World) → Still cell Before u v → Still cell Before v w → Still cell Before u w
  Still-trans u v w (same, on) (same', on') = (same' ∙ same, λ k b. on' k (on k b))

  settled-Still : (i : ℕ) (w : World) → Still cell Before w (settled i w).1
  settled-Still i w =
      let verdict = plan.classify (plan.outcomes i) in
      subst
        (λ t.
          Still cell Before w (settle (progress i) self.stop self.wait t self.hooks verdict w).1)
        timed.timeout
        (settle-Rel (Still cell Before) Still-trans self timed.rest (progress i) verdict w)

  -- A round is its step, after the time that the operation takes.
  round-settled :
      (i : ℕ) (w : World)
      → Before i w
      → (cell.get w).now ≡ (moment plan origin i).reading
      → (w' : World) × (round self origin (at i) w ≡ settled i w')
        × (cell.get w' ≡ record { now = returned plan origin i; waits = (cell.get w).waits })
        × Before (suc i) w'
  unfolding round step State.new for_attempt with_elapsed with_previous_delay elapsed progress
  round-settled i w here shown =
      let began = elapsed self.clock.now origin w in
      let view = before_state (at i) began.0 in
      let ready = self.hooks.before_attempt view began.1 in
      let (same, on) = Still-trans _ _ _ (timed.read w) (timed.rest.before_attempt view began.1) in
      let (outcome, moved, called) = timed.called i view ready.1 (on i here) in
      let back = self.op view ready.1 in
      let read = elapsed self.clock.now origin back.1 in
      let hooked = self.hooks.after_attempt (State.new (number i) read.0 back.0) read.1 in
      let judged = self.classifier back.0 hooked.1 in
      let (same', on') =
        Still-trans _ _ _
          (Still-trans _ _ _ (timed.read back.1) (timed.rest.after_attempt _ read.1))
          (timed.rest.classifier back.0 hooked.1) in
      let clock : cell.get back.1
          ≡ record { now = returned plan origin i; waits = (cell.get w).waits } =
        moved ∙ rw (same, shown) refl in
      let late : read.0 ≡ (state plan origin i).elapsed = rw (timed.now back.1, clock) refl in
      (
        judged.1,
        ap
              (λ e.
                settle (record (progress i) { elapsed = e }) self.stop self.wait self.timeout
                  self.hooks judged.0 judged.1)
              late
            ∙ ap (λ t. settle (progress i) self.stop self.wait t self.hooks judged.0 judged.1)
                timed.timeout
            ∙ ap
                (λ verdict.
                  settle (progress i) self.stop self.wait plan.timeout self.hooks verdict judged.1)
                (timed.classified back.0 hooked.1 ∙ ap plan.classify outcome),
        same' ∙ clock,
        on' (suc i) called,
      )

  clock_eq :
      (clock : VirtualClock) {now : Duration}
      → clock.now ≡ now
      → clock ≡ record { now = now; waits = clock.waits }
  clock_eq clock e = λ j. record { now = e j; waits = clock.waits }

  slept-on :
      (i : ℕ) (w : World)
      → Before (suc i) w
      → (cell.get w).now ≡ returned plan origin i
      → let v = slept self.clock (pause plan origin i) w in
        (cell.get v ≡ record {
          now = (moment plan origin (suc i)).reading;
          waits =
              (cell.get w).waits
              ++ (if pause plan origin i == 0 then [] else pause plan origin i ∷ []);
        })
        × Before (suc i) v
  unfolding moment
  slept-on i w here shown =
      let delay = pause plan origin i in
      elim (Bool-cases (delay == 0)) [
        | inl z ↦
            let none_left = ==→eq delay 0 z in
            let kept : (cell.get w).now ≡ (moment plan origin (suc i)).reading = omega arith in
            (rw (slept, z, append-nil) (clock_eq (cell.get w) kept), rw (slept, z) here)
        | inr pos ↦
            let (moved, on) = timed.sleep delay w in
            (rw (slept, pos) (moved ∙ rw shown refl), rw (slept, pos) (on (suc i) here))
      ]

  module _ (waits : List Duration) where
    abbrev pub On : ℕ → World → Type 0
    On i w =
        (cell.get w ≡ record {
          now = (moment plan origin i).reading;
          waits = waits ++ pauses_before plan origin i;
        })
        × Before i w

    next-On :
        (i : ℕ) (w w' : World)
        → On i w
        → (cell.get w' ≡ record { now = returned plan origin i; waits = (cell.get w).waits })
        → Before (suc i) w'
        → On (suc i) (slept self.clock (pause plan origin i) (settled i w').1)
    unfolding pauses_before
    next-On i w w' (clock, _) moved called =
        let (same, on) = settled-Still i w' in
        let (after, kept) =
          slept-on i (settled i w').1 (on (suc i) called) (ap (λ k. k.now) (same ∙ moved)) in
        let written = ap (λ k. k.waits) (same ∙ moved) ∙ ap (λ k. k.waits) clock in
        (after ∙ rw (written, append_assoc) refl, kept)

    -- The last attempt.
    pub loop-done :
        (fuel i : ℕ) (w : World)
        → due plan origin i ≡ true
        → On i w
        → let result = loop (suc fuel) self origin (at i) w in
          (result.0 ≡ some (answer plan origin i))
          × (cell.get result.1 ≡ record {
            now = returned plan origin i;
            waits = waits ++ pauses_before plan origin i;
          })
          × Before (suc i) result.1
    unfolding loop resume
    loop-done fuel i w last (clock, here) =
        let (w', e, moved, called) = round-settled i w here (ap (λ k. k.now) clock) in
        let (same, on) = settled-Still i w' in
        let written = ap (λ k. k.waits) clock in
        rw (e, settled-done i w' last) (refl, same ∙ moved ∙ rw written refl, on (suc i) called)

    -- An attempt that is followed by another one.
    pub loop-again :
        (fuel i : ℕ) (w : World)
        → due plan origin i ≡ false
        → On i w
        → (v : World) × On (suc i) v
          × (loop (suc fuel) self origin (at i) w ≡ loop fuel self origin (at (suc i)) v)
    unfolding loop resume moment
    loop-again fuel i w more (clock, here) =
        let (w', e, moved, called) = round-settled i w here (ap (λ k. k.now) clock) in
        let v = slept self.clock (pause plan origin i) (settled i w').1 in
        let counted : min (number i + 1) u32_max ≡ number (suc i) = omega arith in
        (
          v,
          next-On i w w' (clock, here) moved called,
          rw (e, settled-again i w' more, counted) refl,
        )
