-- ===== src/Engine/Step/Log.antt =====
-- What the hooks of src/engine/hooks.rs see of the step of src/engine/step.rs.
use tenacious.Prelude.{
  ℕ, zero, suc, min, List, [], ◌∷◌, ◌++◌, Bool-cases, inl, inr, ◌≡◌, sym, ap, ◌∙◌, ◌||◌, M, Ref,
  IsCell, Option,
}
use mathlib.Core.List.{append-nil, append_assoc}
use tenacious.State.{RetryState}
use tenacious.Duration.{Duration}
use tenacious.Decision.{Verdict, Decide}
use tenacious.Stop.{Stop}
use tenacious.Wait.{Wait}
use tenacious.Engine.State
use tenacious.Engine.State.{StopReason}
use tenacious.Engine.Hooks.{ExecutionHooks}
use tenacious.Engine.Step.{Progress, Step, settle, step, timeout_exceeded, state_of, stats_for}

-- A hook that fires: the first two with the attempt's number, the last with the reason of the exit.
pub data Event : Type 0 where
  before : ℕ → Event
  after : ℕ → Event
  exit : StopReason → Event

-- The number of the attempt after `k` others; it is a `u32`.
abbrev pub number : ℕ → ℕ
number k = min (suc k) 4_294_967_295

-- What `k` attempts fire.
abbrev pub attempts_fire : ℕ → List Event
attempts_fire zero = []
attempts_fire (suc k) = attempts_fire k ++ (before (number k) ∷ after (number k) ∷ [])

module _ {World : Type 0} (log : Ref World (List Event)) where
  abbrev pub push : Event → M World (Unit {0})
  push e w = (tt, log.set (log.get w ++ (e ∷ [])) w)

  -- Hooks that write down that they were called.
  abbrev pub recording : {R A O : Type 0} → ExecutionHooks World R A O
  recording = record {
    before_attempt = λ state. push (before state.attempt);
    after_attempt = λ state. push (after state.attempt);
    on_exit = λ view. push (exit (State.stop_reason view));
  }

-- What the step fires after `after_attempt`.
abbrev pub fired : {R A O : Type 0} → Step R A O → List Event
fired (Step.done result stats) = exit stats.stop_reason ∷ []
fired (Step.again delay running) = []

pub regroup :
    (xs ys : List Event) (a b : Event) (rest : List Event)
    → (((xs ++ ys) ++ (a ∷ [])) ++ (b ∷ [])) ++ rest ≡ (xs ++ (ys ++ (a ∷ b ∷ []))) ++ rest
regroup xs ys a b rest =
    ap (λ l. l ++ rest)
      (append_assoc (xs ++ ys) (a ∷ []) (b ∷ []) ∙ append_assoc xs ys (a ∷ b ∷ []))

-- Strategies that do not touch the log.
pub record IsQuiet {World R A O : Type 0} (log : Ref World (List Event))
    (classifier : Decide World R A O) (stop : Stop World) (wait : Wait World) : Type 0 where
  pub classifier_quiet : (outcome : O) (w : World) → log.get (classifier outcome w).1 ≡ log.get w
  pub stop_quiet : (state : RetryState) (w : World) → log.get (stop state w).1 ≡ log.get w
  pub wait_quiet : (state : RetryState) (w : World) → log.get (wait state w).1 ≡ log.get w

module _ {World R A O : Type 0} (log : Ref World (List Event)) (lawful : IsCell log)
    (classifier : Decide World R A O) (stop : Stop World) (wait : Wait World)
    (timeout : Option Duration) (quiet : IsQuiet log classifier stop wait) where
  settle-log :
      (p : Progress) (verdict : Verdict R A O) (w : World)
      → let next = settle p stop wait timeout (recording log) verdict w in
        log.get next.1 ≡ log.get w ++ fired next.0
  unfolding settle State.stop_reason stats_for
  settle-log p (Verdict.accept value) w = lawful.get-set _ w
  settle-log p (Verdict.abort last) w = lawful.get-set _ w
  settle-log p (Verdict.retry last) w =
      elim (Bool-cases ((stop (state_of p) w).0 || timeout_exceeded timeout p.elapsed)) [
        | inl e ↦ rw (e, lawful.get-set, quiet.stop_quiet)
        | inr e ↦ rw (e, quiet.wait_quiet, quiet.stop_quiet) (sym (append-nil (log.get w)))
      ]

  pub step-log :
      (p : Progress) (outcome : O) (w : World)
      → let next = step p outcome classifier stop wait timeout (recording log) w in
        log.get next.1 ≡ (log.get w ++ (after p.attempt ∷ [])) ++ fired next.0
  unfolding step State.new
  step-log p outcome w = rw (settle-log, quiet.classifier_quiet, lawful.get-set)
