-- ===== src/Engine/Async/Events.antt =====
-- What the hooks see of the future of src/engine/async_engine.rs, whether it is polled to its end or
-- dropped before that.
use tenacious.Prelude.{
  ℕ, zero, suc, List, [], ◌∷◌, ◌++◌, Bool-cases, inl, inr, ◌≡◌, refl, sym, ap, ◌∙◌, ◌==◌,
}
use tenacious.Prelude.{arith, M, Ref, IsCell, Poll, pending, ready, Option, some, none}
use mathlib.Core.Path.{subst}
use mathlib.Core.List.{append-nil}
use tenacious.State.{for_attempt, with_elapsed, with_previous_delay}
use tenacious.Duration.{Duration}
use tenacious.Engine.Step.{Step, step}
use tenacious.Engine.Step.Log.{
  Event, before, after, number, attempts_fire, recording, fired, regroup, step-log,
}
use tenacious.Engine.Sync.{Cursor, start, elapsed, progress_of}
use tenacious.Engine.Async.{
  AsyncRetry, AsyncRun, Phase, Turn, Polled, bump, into_run, begin_attempt, after_step, on_polled,
  on_slept, turn_in, turn, after_turn, poll_loop, baseline, poll,
}
use tenacious.Engine.Async.Logged.{polled_times, Quiet, LoggedAt, recorded, in_phase, Logged}

module _ {World Fut WaitFut R A O : Type 0} (log : Ref World (List Event)) (lawful : IsCell log)
    (self : AsyncRetry World Fut WaitFut R A O) (quiet : Quiet log self) where
  abbrev TurnLogged : List Event → (Turn R A O × AsyncRun World Fut WaitFut R A O) × World → Type 0
  TurnLogged written t = Logged log self written t.0.1 t.1

  after_step-Logged :
      (written : List Event) (phase : Phase Fut WaitFut) (c : Cursor) (origin : Option Duration)
      (k : ℕ) (next : Step R A O) (w : World)
      → c.attempt ≡ number k
      → log.get w ≡ (written ++ attempts_fire (suc k)) ++ fired next
      → TurnLogged written (after_step (in_phase log self phase c origin) next w)
  unfolding after_step
  after_step-Logged written phase c origin k (Step.done result stats) w n e =
      (Phase.done, c, origin, k, refl, (stats.stop_reason, e))
  after_step-Logged written phase c origin k (Step.again delay running) w n e =
      let moved = record c { total_wait = running; previous_delay = some delay } in
      let logged = e ∙ append-nil (written ++ attempts_fire (suc k)) in
      elim (Bool-cases (delay == 0)) [
        | inl z ↦
            rw z (Phase.ready_to_start, bump moved, origin, suc k, refl, (omega arith, logged))
        | inr z ↦ rw z (
          Phase.sleeping (self.clock.wait_async delay w).0,
          moved,
          origin,
          k,
          refl,
          (n, quiet.wait_async delay w ∙ logged),
        )
      ]

  on_polled-Logged :
      (written : List Event) (since : Duration) (fut : Fut) (c : Cursor) (origin : Option Duration)
      (k : ℕ) (polled : Poll O × Fut) (w : World)
      → LoggedAt {Fut = Fut} {WaitFut = WaitFut} written (Phase.polling fut) k c (log.get w)
      → TurnLogged written
          (on_polled since (in_phase log self (Phase.polling fut) c origin) polled w)
  unfolding on_polled elapsed
  on_polled-Logged written since fut c origin k (pending, fut') w (n, e) =
      (Phase.polling fut', c, origin, k, refl, (n, e))
  on_polled-Logged written since fut c origin k (ready a, fut') w (n, e) =
      let read = elapsed self.clock.now since w in
      let next =
        step (progress_of c read.0) a self.classifier self.stop self.wait self.timeout
          (recording log) read.1 in
      after_step-Logged written (Phase.polling fut) c origin k next.0 next.1 n (
        step-log log lawful self.classifier self.stop self.wait self.timeout quiet.strategies
          (progress_of c read.0) a read.1
        ∙ ap (λ l. (l ++ (after c.attempt ∷ [])) ++ fired next.0) (quiet.now w ∙ e)
        ∙ ap
            (λ m.
              (((written ++ attempts_fire k) ++ (before (number k) ∷ [])) ++ (after m ∷ []))
              ++ fired next.0)
            n
        ∙ regroup written (attempts_fire k) (before (number k)) (after (number k)) (fired next.0))

  on_slept-Logged :
      (written : List Event) (fut : WaitFut) (c : Cursor) (origin : Option Duration) (k : ℕ)
      (polled : Poll (Unit {0}) × WaitFut) (w : World)
      → LoggedAt {Fut = Fut} {WaitFut = WaitFut} written (Phase.sleeping fut) k c (log.get w)
      → TurnLogged written (on_slept (in_phase log self (Phase.sleeping fut) c origin) polled w)
  unfolding on_slept
  on_slept-Logged written fut c origin k (pending, fut') w (n, e) =
      (Phase.sleeping fut', c, origin, k, refl, (n, e))
  on_slept-Logged written fut c origin k (ready _, fut') w (n, e) =
      (Phase.ready_to_start, bump c, origin, suc k, refl, (omega arith, e))

  turn_in-Logged :
      (written : List Event) (since : Duration) (phase : Phase Fut WaitFut) (c : Cursor)
      (origin : Option Duration) (k : ℕ) (w : World)
      → LoggedAt written phase k c (log.get w)
      → TurnLogged written (turn_in since phase (in_phase log self phase c origin) w)
  unfolding turn_in begin_attempt elapsed for_attempt with_elapsed with_previous_delay
  turn_in-Logged written since Phase.ready_to_start c origin k w (n, e) = (
    _,
    c,
    origin,
    k,
    refl,
    (
      n,
      quiet.op _ _
          ∙ lawful.get-set _ _
          ∙ ap (λ l. l ++ (before c.attempt ∷ [])) (quiet.now w ∙ e)
          ∙ ap (λ m. (written ++ attempts_fire k) ++ (before m ∷ [])) n,
    ),
  )
  turn_in-Logged written since (Phase.polling fut) c origin k w (n, e) =
      let polled = self.poll_op fut w in
      on_polled-Logged written since fut c origin k polled.0 polled.1 (n, quiet.poll_op fut w ∙ e)
  turn_in-Logged written since (Phase.sleeping fut) c origin k w (n, e) =
      let polled = self.clock.poll_wait fut w in
      on_slept-Logged written fut c origin k polled.0 polled.1 (n, quiet.poll_wait fut w ∙ e)
  turn_in-Logged written since Phase.done c origin k w gone = (Phase.done, c, origin, k, refl, gone)

  turn-Logged :
      (written : List Event) (since : Duration) (run : AsyncRun World Fut WaitFut R A O) (w : World)
      → Logged log self written run w
      → TurnLogged written (turn since run w)
  unfolding turn
  turn-Logged written since run w (phase, c, origin, k, e, logged) =
      subst (λ r. TurnLogged written (turn since r w)) (sym e)
        (turn_in-Logged written since phase c origin k w logged)

  abbrev PollLogged :
      List Event → (Polled R A O × AsyncRun World Fut WaitFut R A O) × World → Type 0
  PollLogged written t = Logged log self written t.0.1 t.1

  after_turn-Logged :
      (written : List Event)
      (rest : AsyncRun World Fut WaitFut R A O
        → M World (Polled R A O × AsyncRun World Fut WaitFut R A O))
      → ((run : AsyncRun World Fut WaitFut R A O) (w : World)
          → Logged log self written run w
          → PollLogged written (rest run w))
      → (next : Turn R A O) (run : AsyncRun World Fut WaitFut R A O) (w : World)
      → Logged log self written run w
      → PollLogged written (after_turn rest next run w)
  after_turn-Logged written rest keeps Turn.go_on run w held = keeps run w held
  after_turn-Logged written rest keeps (Turn.return polled) run w held = held
  after_turn-Logged written rest keeps Turn.panic run w held = held

  poll_loop-Logged :
      (written : List Event) (fuel : ℕ) (since : Duration) (run : AsyncRun World Fut WaitFut R A O)
      (w : World)
      → Logged log self written run w
      → PollLogged written (poll_loop fuel since run w)
  unfolding poll_loop
  poll_loop-Logged written zero since run w logged = logged
  poll_loop-Logged written (suc fuel) since run w logged =
      let t = turn since run w in
      after_turn-Logged written (poll_loop fuel since) (poll_loop-Logged written fuel since) t.0.0
        t.0.1 t.1 (turn-Logged written since run w logged)

  poll-Logged :
      (written : List Event) (fuel : ℕ) (run : AsyncRun World Fut WaitFut R A O) (w : World)
      → Logged log self written run w
      → PollLogged written (poll fuel run w)
  unfolding poll baseline
  poll-Logged written fuel run w (phase, c, origin, k, e, logged) =
      subst (λ r. PollLogged written (poll fuel r w)) (sym e) (from origin)
    where
      from :
          (at : Option Duration) → PollLogged written (poll fuel (in_phase log self phase c at) w)
      from (some since) =
          poll_loop-Logged written fuel since _ w (phase, c, some since, k, refl, logged)
      from none =
          let (since, w') = self.clock.now w in
          poll_loop-Logged written fuel since _ w' (
            phase,
            c,
            some since,
            k,
            refl,
            subst (LoggedAt {Fut = Fut} {WaitFut = WaitFut} written phase k c) (sym (quiet.now w))
                logged,
          )

  polled_times-Logged :
      (written : List Event) (n fuel : ℕ) (run : AsyncRun World Fut WaitFut R A O) (w : World)
      → Logged log self written run w
      → let t = polled_times n fuel run w in Logged log self written t.0 t.1
  polled_times-Logged written zero fuel run w logged = logged
  polled_times-Logged written (suc n) fuel run w logged =
      polled_times-Logged written n fuel _ _ (poll-Logged written fuel run w logged)

  -- With hooks that write a log, in a lawful cell that no other part touches: after any number of
  -- polls of a fresh future, each with any fuel, there is a `k` for which the log is what it was and
  -- then: before an attempt starts and while the future sleeps, `before_attempt` and
  -- `after_attempt` of the first attempts in turn, each with its number; while the operation's
  -- future is pending, the same and the `before_attempt` of the attempt that is under way; and
  -- only when the future is done, one `on_exit`, which comes last. So a future that is
  -- dropped before it is done has fired no `on_exit`, and one that is polled after it is done fires
  -- nothing more.
  pub polled_times-events :
      (n fuel : ℕ) (w : World)
      → let t = polled_times n fuel (into_run (recorded log self)) w in
        Logged log self (log.get w) t.0 t.1
  unfolding into_run
  polled_times-events n fuel w =
      polled_times-Logged (log.get w) n fuel _ w
        (Phase.ready_to_start, start, none, zero, refl, (refl, sym (append-nil (log.get w))))
