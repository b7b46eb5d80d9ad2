-- ===== src/Engine/Sync/Events.antt =====
-- In which order the loop of src/engine/mod.rs fires the hooks of src/engine/hooks.rs.
use tenacious.Prelude.{
  ℕ, suc, List, [], ◌∷◌, ◌++◌, Bool-cases, inl, inr, ◌≡◌, refl, sym, ap, ◌∙◌, some, ◌==◌,
}
use tenacious.Prelude.{arith, Ref, IsCell}
use mathlib.Core.Path.{subst}
use mathlib.Core.List.{append-nil}
use tenacious.State.{RetryState, for_attempt, with_elapsed, with_previous_delay}
use tenacious.Duration.{Duration}
use tenacious.Engine.Step.{step, stats_for}
use tenacious.Engine.Step.Log.{
  Event, before, after, exit, number, attempts_fire, recording, fired, regroup, IsQuiet, step-log,
}
use tenacious.Engine.Sync.{Retry, Cursor, Finished, start, round, run, elapsed}
use tenacious.Engine.Sync.Rules.{slept, loop_inv}
use tenacious.Engine.Sync.Outcome.{round-done}

module _ {World : Type 0} (log : Ref World (List Event)) where
  -- After `k + 1` attempts and the exit.
  abbrev pub Gone : {R A O : Type 0} → List Event → Finished R A O → World → Type 0
  Gone written f w =
      (k : ℕ) × (f.1.attempts ≡ number k)
      × (log.get w ≡ (written ++ attempts_fire (suc k)) ++ (exit f.1.stop_reason ∷ []))

  -- The other parts do not touch the log.
  pub record Quiet {R A O : Type 0} (self : Retry World R A O) : Type 0 where
    pub now : (w : World) → log.get (self.clock.now w).1 ≡ log.get w
    pub sleep : (dur : Duration) (w : World) → log.get (self.clock.wait dur w).1 ≡ log.get w
    pub op : (state : RetryState) (w : World) → log.get (self.op state w).1 ≡ log.get w
    pub strategies : IsQuiet log self.classifier self.stop self.wait

module _ {World R A O : Type 0} (log : Ref World (List Event)) (lawful : IsCell log)
    (self : Retry World R A O) (quiet : Quiet log self) where
  abbrev recorded : Retry World R A O
  recorded = record self { hooks = recording log }

  round-log :
      (origin : Duration) (c : Cursor) (w : World)
      → let next = round recorded origin c w in
        log.get next.1
        ≡ ((log.get w ++ (before c.attempt ∷ [])) ++ (after c.attempt ∷ [])) ++ fired next.0
  unfolding round elapsed for_attempt with_elapsed with_previous_delay step
  round-log origin c w = rw (
    step-log log lawful self.classifier self.stop self.wait self.timeout quiet.strategies,
    quiet.now,
    quiet.op,
    lawful.get-set,
    quiet.now,
  )

  slept-log : (delay : Duration) (w : World) → log.get (slept self.clock delay w) ≡ log.get w
  slept-log delay w = elim (Bool-cases (delay == 0)) [
    | inl e ↦ rw (slept, e)
    | inr e ↦ rw (slept, e) (quiet.sleep delay w)
  ]

  -- After `k` attempts that were to be followed by another one.
  abbrev Going : List Event → Cursor → World → Type 0
  Going written c w = (k : ℕ) × (c.attempt ≡ number k) × (log.get w ≡ written ++ attempts_fire k)

  round_log-fired :
      (written : List Event) (origin : Duration) (c : Cursor) (w : World) (k : ℕ)
      → c.attempt ≡ number k
      → log.get w ≡ written ++ attempts_fire k
      → log.get (round recorded origin c w).1
        ≡ (written ++ attempts_fire (suc k)) ++ fired (round recorded origin c w).0
  round_log-fired written origin c w k n e =
      let rest = fired (round recorded origin c w).0 in
      round-log origin c w
      ∙ ap (λ l. ((l ++ (before c.attempt ∷ [])) ++ (after c.attempt ∷ [])) ++ rest) e
      ∙ ap (λ m. (((written ++ attempts_fire k) ++ (before m ∷ [])) ++ (after m ∷ [])) ++ rest) n
      ∙ regroup written (attempts_fire k) (before (number k)) (after (number k)) rest

  -- With hooks that write a log, in a lawful cell that no other part touches: when `run`
  -- returns, it has appended to the log, for each attempt in turn, a `before_attempt` and then
  -- an `after_attempt` with the attempt's number, and after the last attempt exactly one
  -- `on_exit`, with the stop reason that the stats show. The attempts in the log are as many as
  -- the stats count, up to `u32::MAX`.
  run-events :
      (fuel : ℕ) (w : World) {f : Finished R A O}
      → (run fuel recorded w).0 ≡ some f
      → Gone log (log.get w) f (run fuel recorded w).1
  unfolding run stats_for
  run-events fuel w {f} h =
      let (origin, from) = self.clock.now w in
      let written = log.get w in
      loop_inv recorded origin (Going written) (Gone log written)
        (λ c v delay running (k, n, e) went. (
          suc k,
          omega arith,
          slept-log delay _
              ∙ subst
                  (λ s.
                    log.get (round recorded origin c v).1
                    ≡ (written ++ attempts_fire (suc k)) ++ fired s)
                  went (round_log-fired written origin c v k n e)
              ∙ append-nil _,
        ))
        (λ c v result stats (k, n, e) ended. (
          k,
          ap (λ s. s.attempts) (round-done recorded origin c v ended).0 ∙ n,
          subst
              (λ s.
                log.get (round recorded origin c v).1
                ≡ (written ++ attempts_fire (suc k)) ++ fired s)
              ended (round_log-fired written origin c v k n e),
        ))
        fuel start from f (0, refl, quiet.now w ∙ sym (append-nil written)) h
