-- ===== src/Engine/Sync/Calls.antt =====
-- Which calls the loop of src/engine/mod.rs makes, and in which order: of the clock, the operation, the
-- classifier, the strategies and the hooks.
use tenacious.Prelude.{
  ℕ, min, List, [], ◌∷◌, ◌++◌, Bool-cases, inl, inr, ◌≡◌, refl, ap, ◌∙◌, some, ◌||◌, ◌==◌,
  if◌then◌else◌, M, length, sum, Ref, IsCell, arith,
}
use tenacious.Duration
use tenacious.Duration.{Duration, saturating_add}
use tenacious.State.{for_attempt, with_elapsed, with_previous_delay}
use tenacious.Decision.{Verdict}
use tenacious.Engine.State
use tenacious.Engine.State.{StopReason}
use tenacious.Engine.Step.{Progress, Step, step, settle, stats_for, state_of, timeout_exceeded}
use tenacious.Engine.Step.Log.{number}
use tenacious.Engine.Sync.{Retry, Cursor, Finished, start, round, run, elapsed}
use tenacious.Engine.Sync.Rules.{slept, loop_inv}
use tenacious.Engine.Sync.Outcome.{round-done, round-again}
use tenacious.Engine.Sync.Frame.{Keeps}

-- A call of a part. `number` is that of the attempt.
pub data Call : Type 0 where
  now classify : Call
  before op after stop wait : (number : ℕ) → Call
  sleep : Duration → Call
  exit : StopReason → Call

-- The calls so far, the latest first.
abbrev pub Trace : Type 0
Trace = List Call

-- An attempt up to its verdict.
abbrev pub judged : ℕ → Trace → Trace
judged n earlier = classify ∷ after n ∷ now ∷ op n ∷ before n ∷ now ∷ earlier

-- Attempts that are followed by these delays, the latest first, after the reading of the baseline. A
-- delay of 0 is not slept.
abbrev pub retried : List Duration → Trace → Trace
retried [] earlier = now ∷ earlier
retried (delay ∷ delays) earlier =
    let n = number (length delays) in
    (if delay == 0 then [] else sleep delay ∷ [])
    ++ (wait n ∷ stop n ∷ judged n (retried delays earlier))

-- The last attempt, after its verdict: only `Retry` asks the stop strategy.
abbrev pub closed : StopReason → ℕ → Trace → Trace
closed StopReason.returned n earlier = exit StopReason.returned ∷ earlier
closed StopReason.aborted n earlier = exit StopReason.aborted ∷ earlier
closed StopReason.exhausted n earlier = exit StopReason.exhausted ∷ stop n ∷ earlier

module _ {World : Type 0} (log : Ref World Trace) where
  abbrev note : Call → World → World
  note call w = log.set (call ∷ log.get w) w

  -- A call that is written down before it is made.
  abbrev noted : {A : Type 0} → Call → M World A → M World A
  noted call m w = m (note call w)

  -- The retry with each of its parts noted.
  abbrev pub traced : {R A O : Type 0} → Retry World R A O → Retry World R A O
  traced self = record {
    op = λ state. noted (op state.attempt) (self.op state);
    classifier = λ outcome. noted classify (self.classifier outcome);
    stop = λ state. noted (stop state.attempt) (self.stop state);
    wait = λ state. noted (wait state.attempt) (self.wait state);
    clock = record {
      now = noted now self.clock.now;
      wait = λ delay. noted (sleep delay) (self.clock.wait delay);
    };
    hooks = record {
      before_attempt = λ view. noted (before view.attempt) (self.hooks.before_attempt view);
      after_attempt = λ view. noted (after view.attempt) (self.hooks.after_attempt view);
      on_exit = λ view. noted (exit (State.stop_reason view)) (self.hooks.on_exit view);
    };
    timeout = self.timeout;
  }

  -- The trace of a run that gave `f`.
  abbrev pub Traced : {R A O : Type 0} → Trace → Finished R A O → World → Type 0
  Traced earlier f w =
      (delays : List Duration) × (f.1.attempts ≡ number (length delays))
      × (f.1.total_wait ≡ min (sum delays) Duration.max)
      × (log.get w
          ≡ closed f.1.stop_reason (number (length delays))
              (judged (number (length delays)) (retried delays earlier)))

module _ {World R A O : Type 0} (log : Ref World Trace) (lawful : IsCell log)
    (self : Retry World R A O) (keeps : Keeps log.get self)
    (sleep_keeps : (delay : Duration) (w : World)
      → log.get (self.clock.wait delay w).1 ≡ log.get w) where
  -- What the step calls after the verdict.
  abbrev tail : ℕ → Step R A O → Trace → Trace
  tail n (Step.done result stats) earlier = closed stats.stop_reason n earlier
  tail n (Step.again delay running) earlier = wait n ∷ stop n ∷ earlier

  settle-log :
      (p : Progress) (verdict : Verdict R A O) (w : World)
      → let m = traced log self in
        let next = settle p m.stop m.wait m.timeout m.hooks verdict w in
        log.get next.1 ≡ tail p.attempt next.0 (log.get w)
  unfolding settle stats_for state_of for_attempt with_elapsed with_previous_delay State.stop_reason
  settle-log p (Verdict.accept value) w = keeps.parts.rest.on_exit _ _ ∙ lawful.get-set _ _
  settle-log p (Verdict.abort last) w = keeps.parts.rest.on_exit _ _ ∙ lawful.get-set _ _
  settle-log p (Verdict.retry last) w =
      let m = traced log self in
      elim (Bool-cases ((m.stop (state_of p) w).0 || timeout_exceeded self.timeout p.elapsed)) [
        | inl e ↦
            rw (e, keeps.parts.rest.on_exit, lawful.get-set, keeps.parts.rest.stop, lawful.get-set)
              refl
        | inr e ↦
            rw (e, keeps.parts.rest.wait, lawful.get-set, keeps.parts.rest.stop, lawful.get-set)
              refl
      ]

  round-log :
      (origin : Duration) (c : Cursor) (w : World)
      → let next = round (traced log self) origin c w in
        log.get next.1 ≡ tail c.attempt next.0 (judged c.attempt (log.get w))
  unfolding round step elapsed State.new for_attempt with_elapsed with_previous_delay
  round-log origin c w =
      settle-log _ _ _
      ∙ ap (tail c.attempt (round (traced log self) origin c w).0) (
          rw
            (
              keeps.parts.rest.classifier, lawful.get-set, keeps.parts.rest.after_attempt,
              lawful.get-set, keeps.now, lawful.get-set, keeps.parts.op, lawful.get-set,
              keeps.parts.rest.before_attempt, lawful.get-set, keeps.now, lawful.get-set,
            )
            refl)

  slept-log :
      (delay : Duration) (w : World)
      → log.get (slept (traced log self).clock delay w)
        ≡ (if delay == 0 then [] else sleep delay ∷ []) ++ log.get w
  slept-log delay w = elim (Bool-cases (delay == 0)) [
    | inl e ↦ rw (slept, e) refl
    | inr e ↦ rw (slept, e) (sleep_keeps delay _ ∙ lawful.get-set _ _)
  ]

  -- The loop's head, after attempts that were followed by these delays.
  abbrev Going : Trace → Cursor → World → Type 0
  Going earlier c w =
      (delays : List Duration) × (c.attempt ≡ number (length delays))
      × (c.total_wait ≡ min (sum delays) Duration.max)
      × (log.get w ≡ retried delays earlier)

  round-tail :
      (earlier : Trace) (origin : Duration) (c : Cursor) (w : World) (delays : List Duration)
      (next : Step R A O)
      → c.attempt ≡ number (length delays)
      → log.get w ≡ retried delays earlier
      → (round (traced log self) origin c w).0 ≡ next
      → let n = number (length delays) in
        log.get (round (traced log self) origin c w).1
        ≡ tail n next (judged n (retried delays earlier))
  round-tail earlier origin c w delays next counted at_head e =
      round-log origin c w
      ∙ ap (λ s. tail c.attempt s (judged c.attempt (log.get w))) e
      ∙ ap (λ n. tail n next (judged n (log.get w))) counted
      ∙ ap (λ l. tail (number (length delays)) next (judged (number (length delays)) l)) at_head

  -- The calls of a run, in order. Each part of the retry writes down in a lawful cell that it is
  -- called, and no part touches the cell otherwise. When `run` returns, it has read the clock once for
  -- the baseline, and then made for each attempt these calls and no other: it has read the clock,
  -- fired `before_attempt`, called the operation, read the clock, fired `after_attempt` and asked the
  -- classifier; after each attempt but the last it has asked the stop strategy and then the wait
  -- strategy, and slept for the delay, unless it was 0; after the last it has asked the stop strategy
  -- if the result is `Exhausted`, and has fired `on_exit` with the stop reason in the stats. The
  -- attempts are as many as the stats count, up to `u32::MAX`, and the delays add up to their
  -- `total_wait`, up to `Duration::MAX`.
  pub run-Traced :
      (fuel : ℕ) (w : World) {f : Finished R A O}
      → (run fuel (traced log self) w).0 ≡ some f
      → Traced log (log.get w) f (run fuel (traced log self) w).1
  unfolding run stats_for
  run-Traced fuel w {f} h =
      let m = traced log self in
      let (origin, from) = m.clock.now w in
      let earlier = log.get w in
      loop_inv m origin (Going earlier) (Traced log earlier)
        (λ c v delay running (delays, counted, summed, at_head) went. (
          delay ∷ delays,
          omega arith,
          (round-again m origin c v went).0 ∙ omega arith,
          slept-log delay _
              ∙ ap (λ l. (if delay == 0 then [] else sleep delay ∷ []) ++ l)
                  (round-tail earlier origin c v delays (Step.again delay running) counted at_head
                    went),
        ))
        (λ c v result stats (delays, counted, summed, at_head) ended.
          let same = (round-done m origin c v ended).0 in
          (
            delays,
            ap (λ s. s.attempts) same ∙ counted,
            ap (λ s. s.total_wait) same ∙ summed,
            round-tail earlier origin c v delays (Step.done result stats) counted at_head ended,
          ))
        fuel start from f ([], refl, refl, keeps.now _ ∙ lawful.get-set _ _) h
