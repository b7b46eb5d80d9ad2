-- ===== src/Engine/Async/Logged.antt =====
-- What the log holds in each phase of the future of src/engine/async_engine.rs.
use tenacious.Prelude.{zero, M, ℕ, suc, List, [], ◌∷◌, ◌++◌, ◌≡◌}
use tenacious.Prelude.{Ref, Option}
use tenacious.State.{RetryState}
use tenacious.Duration.{Duration}
use tenacious.Engine.State.{StopReason}
use tenacious.Engine.Step.Log.{Event, before, exit, number, attempts_fire, recording, IsQuiet}
use tenacious.Engine.Sync.{Cursor}
use tenacious.Engine.Async.{poll, AsyncRetry, AsyncRun, Phase}

module _ {World Fut WaitFut : Type 0} (log : Ref World (List Event)) where
  -- The parts of the builder but for the hooks do not touch the log.
  pub record Quiet {R A O : Type 0} (self : AsyncRetry World Fut WaitFut R A O) : Type 0 where
    pub now : (w : World) → log.get (self.clock.now w).1 ≡ log.get w
    pub wait_async :
        (dur : Duration) (w : World) → log.get (self.clock.wait_async dur w).1 ≡ log.get w
    pub poll_wait : (fut : WaitFut) (w : World) → log.get (self.clock.poll_wait fut w).1 ≡ log.get w
    pub op : (state : RetryState) (w : World) → log.get (self.op state w).1 ≡ log.get w
    pub poll_op : (fut : Fut) (w : World) → log.get (self.poll_op fut w).1 ≡ log.get w
    pub strategies : IsQuiet log self.classifier self.stop self.wait

-- The log in each phase, with `k` attempts behind it that were followed by another one. Only a
-- future that has ended has fired `on_exit`.
abbrev pub LoggedAt :
    {Fut WaitFut : Type 0} → List Event → Phase Fut WaitFut → ℕ → Cursor → List Event → Type 0
LoggedAt written Phase.ready_to_start k c log =
    (c.attempt ≡ number k) × (log ≡ written ++ attempts_fire k)
LoggedAt written (Phase.polling _) k c log =
    (c.attempt ≡ number k) × (log ≡ (written ++ attempts_fire k) ++ (before (number k) ∷ []))
LoggedAt written (Phase.sleeping _) k c log =
    (c.attempt ≡ number k) × (log ≡ written ++ attempts_fire (suc k))
LoggedAt written Phase.done k c log =
    (reason : StopReason) × (log ≡ (written ++ attempts_fire (suc k)) ++ (exit reason ∷ []))

module _ {World Fut WaitFut R A O : Type 0} (log : Ref World (List Event))
    (self : AsyncRetry World Fut WaitFut R A O) where
  abbrev pub recorded : AsyncRetry World Fut WaitFut R A O
  recorded = record self { hooks = recording log }

  abbrev pub in_phase :
      Phase Fut WaitFut → Cursor → Option Duration → AsyncRun World Fut WaitFut R A O
  in_phase phase c origin = record { retry = recorded; phase = phase; cursor = c; origin = origin }

  -- A future of these parts, with the log that its phase says.
  abbrev pub Logged : List Event → AsyncRun World Fut WaitFut R A O → World → Type 0
  Logged written run w =
      (phase : Phase Fut WaitFut) × (c : Cursor) × (origin : Option Duration) × (k : ℕ) × (run
        ≡ in_phase phase c origin)
      × LoggedAt written phase k c (log.get w)

module _ {World Fut WaitFut R A O : Type 0} where
  -- An executor that polls the future `n` times and then does not poll it again.
  abbrev pub polled_times :
      (n fuel : ℕ) → AsyncRun World Fut WaitFut R A O → M World (AsyncRun World Fut WaitFut R A O)
  polled_times zero fuel run w = (run, w)
  polled_times (suc n) fuel run w = let t = poll fuel run w in polled_times n fuel t.0.1 t.1
