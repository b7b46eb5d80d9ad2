-- ===== src/Engine/Async/Eager.antt =====
-- A future of src/engine/async_engine.rs that has nothing to wait for.
use tenacious.Prelude.{
  ℕ, zero, suc, ◌+◌, ◌*◌, ◌≤◌, Bool-cases, inl, inr, ◌||◌, ◌≡◌, ◌≢◌, refl, Option, some, none, Poll,
  pending, ready, M, arith,
}
use mathlib.Core.Path.{subst}
use tenacious.Duration.{Duration}
use tenacious.State.{RetryState}
use tenacious.Decision.{Verdict}
use tenacious.Stop.{Stop, StopsBy}
use tenacious.Wait.{Wait}
use tenacious.Engine.State
use tenacious.Engine.Hooks.{ExecutionHooks}
use tenacious.Engine.Step.{Progress, Step, step, settle, state_of, timeout_exceeded}
use tenacious.Engine.Sync.{Cursor, start, Finished, u32_max, elapsed, progress_of}
use tenacious.Engine.Async.{
  AsyncRetry, AsyncRun, Phase, Turn, Polled, into_run, begin_attempt, after_step, on_polled,
  turn_in, turn, after_turn, poll_loop, baseline, poll,
}
use tenacious.Engine.Async.Reaches.{at}
use tenacious.Engine.Async.Fuel.{Ends, poll-Ends}
use tenacious.Engine.Async.Panics.{poll-panicked}

-- A retry follows at once.
abbrev AtOnce : {R A O : Type 0} → Step R A O → Type 0
AtOnce (Step.done result stats) = Unit
AtOnce (Step.again delay running) = delay ≡ 0

abbrev pub IsReady : {B : Type 0} → Poll B → Type 0
IsReady pending = ⊥
IsReady (ready a) = Unit

module _ {World R A O : Type 0} where
  module _ (stop : Stop World) (wait : Wait World) (hooks : ExecutionHooks World R A O)
      (zero_wait : (state : RetryState) (w : World) → (wait state w).0 ≡ 0) where
    settle-AtOnce :
        (timeout : Option Duration) (p : Progress) (verdict : Verdict R A O) (w : World)
        → AtOnce (settle p stop wait timeout hooks verdict w).0
    unfolding settle
    settle-AtOnce timeout p (Verdict.accept value) w = tt
    settle-AtOnce timeout p (Verdict.abort last) w = tt
    settle-AtOnce none p (Verdict.retry last) w =
        elim (Bool-cases ((stop (state_of p) w).0 || timeout_exceeded none p.elapsed)) [
          | inl e ↦ rw e tt
          | inr e ↦ rw e (zero_wait _ _)
        ]
    settle-AtOnce (some t) p (Verdict.retry last) w =
        elim (Bool-cases ((stop (state_of p) w).0 || timeout_exceeded (some t) p.elapsed)) [
          | inl e ↦ rw e tt
          | inr e ↦
              let none_asked = zero_wait (state_of p) (stop (state_of p) w).1 in rw e (omega arith)
        ]

module _ {World Fut WaitFut R A O : Type 0} (self : AsyncRetry World Fut WaitFut R A O)
    (zero_wait : (state : RetryState) (w : World) → (self.wait state w).0 ≡ 0)
    (op_ready : (state : RetryState) (w : World)
      → let call = self.op state w in IsReady (self.poll_op call.0 call.1).0.0) where
  -- Nothing is pending in this phase.
  abbrev Awake : Phase Fut WaitFut → World → Type 0
  Awake Phase.ready_to_start w = Unit
  Awake (Phase.polling fut) w = IsReady (self.poll_op fut w).0.0
  Awake (Phase.sleeping fut) w = ⊥
  Awake Phase.done w = Unit

  module _ (since : Duration) where
    -- A turn that goes on is awake still, and one that returns is ready.
    abbrev TurnAwake : Turn R A O → AsyncRun World Fut WaitFut R A O → World → Type 0
    TurnAwake Turn.go_on run w =
        (phase : Phase Fut WaitFut) × (c : Cursor) × (run ≡ at self since phase c) × Awake phase w
    TurnAwake (Turn.return polled) run w = IsReady polled
    TurnAwake Turn.panic run w = Unit

    after_step-Awake :
        (phase : Phase Fut WaitFut) (c : Cursor) (next : Step R A O) (w : World)
        → AtOnce next
        → let t = after_step (at self since phase c) next w in TurnAwake t.0.0 t.0.1 t.1
    unfolding after_step
    after_step-Awake phase c (Step.done result stats) w now = tt
    after_step-Awake phase c (Step.again delay running) w now =
        rw now (Phase.ready_to_start, _, refl, tt)

    on_polled-Awake :
        (phase : Phase Fut WaitFut) (c : Cursor) (polled : Poll O × Fut) (w : World)
        → IsReady polled.0
        → let t = on_polled since (at self since phase c) polled w in TurnAwake t.0.0 t.0.1 t.1
    unfolding on_polled elapsed step
    on_polled-Awake phase c (pending, fut) w is_ready = absurd is_ready
    on_polled-Awake phase c (ready a, fut) w is_ready =
        let read = elapsed self.clock.now since w in
        let p = progress_of c read.0 in
        let hooked = (self.hooks.after_attempt (State.new p.attempt p.elapsed a) read.1).1 in
        let judged = self.classifier a hooked in
        let next = settle p self.stop self.wait self.timeout self.hooks judged.0 judged.1 in
        after_step-Awake phase c next.0 next.1
          (settle-AtOnce self.stop self.wait self.hooks zero_wait self.timeout p judged.0 judged.1)

    turn_in-Awake :
        (phase : Phase Fut WaitFut) (c : Cursor) (w : World)
        → Awake phase w
        → let t = turn_in since phase (at self since phase c) w in TurnAwake t.0.0 t.0.1 t.1
    unfolding turn_in begin_attempt
    turn_in-Awake Phase.ready_to_start c w awake = (_, c, refl, op_ready _ _)
    turn_in-Awake (Phase.polling fut) c w awake = on_polled-Awake (Phase.polling fut) c _ _ awake
    turn_in-Awake (Phase.sleeping fut) c w awake = absurd awake
    turn_in-Awake Phase.done c w awake = tt

    after_turn-NotPending :
        (rest : AsyncRun World Fut WaitFut R A O
          → M World (Polled R A O × AsyncRun World Fut WaitFut R A O))
        → ((phase : Phase Fut WaitFut) (c : Cursor) (w : World)
            → Awake phase w
            → (rest (at self since phase c) w).0.0 ≢ Polled.returned pending)
        → (next : Turn R A O) (run : AsyncRun World Fut WaitFut R A O) (w : World)
        → TurnAwake next run w
        → (after_turn rest next run w).0.0 ≢ Polled.returned pending
    after_turn-NotPending rest more Turn.go_on run w (phase, c, e, awake) h =
        more phase c w awake (subst (λ r. (rest r w).0.0 ≡ Polled.returned pending) e h)
    after_turn-NotPending rest more (Turn.return pending) run w awake h = awake
    after_turn-NotPending rest more (Turn.return (ready f)) run w awake h = cc
    after_turn-NotPending rest more Turn.panic run w awake h = cc

    poll_loop-NotPending :
        (fuel : ℕ) (phase : Phase Fut WaitFut) (c : Cursor) (w : World)
        → Awake phase w
        → (poll_loop fuel since (at self since phase c) w).0.0 ≢ Polled.returned pending
    unfolding poll_loop turn
    poll_loop-NotPending zero phase c w awake h = cc
    poll_loop-NotPending (suc fuel) phase c w awake h =
        let t = turn since (at self since phase c) w in
        after_turn-NotPending (poll_loop fuel since) (poll_loop-NotPending fuel) t.0.0 t.0.1 t.1
          (turn_in-Awake phase c w awake) h

  fresh-NotPending :
      (fuel : ℕ) (w : World) → (poll fuel (into_run self) w).0.0 ≢ Polled.returned pending
  unfolding poll baseline into_run
  fresh-NotPending fuel w =
      poll_loop-NotPending _ fuel Phase.ready_to_start start (self.clock.now w).1 tt

  only_ready :
      (polled : Polled R A O)
      → Ends polled
      → polled ≢ Polled.panicked
      → polled ≢ Polled.returned pending
      → (f : Finished R A O) × (polled ≡ Polled.returned (ready f))
  only_ready (Polled.returned pending) ends unbroken here = absurd (here refl)
  only_ready (Polled.returned (ready f)) ends unbroken here = (f, refl)
  only_ready Polled.panicked ends unbroken here = absurd (unbroken refl)
  only_ready Polled.ran_out ends unbroken here = absurd ends

  -- A future that has nothing to wait for does not yield. Suppose that the wait strategy always asks
  -- for 0, that each of the operation's futures is ready at its first poll, and that the stop strategy
  -- stops at the `n`th attempt at the latest, with `n` a `u32` that is not 0. Then the first poll of
  -- the future, with fuel `3 * n + 4` at least, is ready with a result, in every world.
  pub poll_first-ready :
      (n fuel : ℕ) (w : World)
      → 1 ≤ n
      → n ≤ u32_max
      → StopsBy n self.stop
      → 3 * n + 4 ≤ fuel
      → (f : Finished R A O) × ((poll fuel (into_run self) w).0.0 ≡ Polled.returned (ready f))
  unfolding into_run
  poll_first-ready n zero w pos small by enough = absurd (omega arith)
  poll_first-ready n (suc fuel) w pos small by enough =
      only_ready _ (poll-Ends self n small by (suc fuel) enough 0 w pos)
        (λ h. cc ((poll-panicked fuel (into_run self) w).0 h)) (fresh-NotPending (suc fuel) w)
