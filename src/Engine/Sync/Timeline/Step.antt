-- ===== src/Engine/Sync/Timeline/Step.antt =====
-- The step of src/engine/step.rs, for strategies that answer by functions.
use tenacious.Prelude.{Bool, true, false, ◌||◌, Option, none, some, ◌≡◌, refl}
use tenacious.Duration.{Duration, saturating_add}
use tenacious.State.{RetryState}
use tenacious.Decision.{Verdict}
use tenacious.Stop.{Stop}
use tenacious.Wait.{Wait}
use tenacious.Engine.Hooks.{ExecutionHooks}
use tenacious.Engine.Step.{Progress, Step, settle, stats_for, state_of}
use tenacious.Engine.Sync.Timeline.{spent, cut, settles, answered}

module _ {World R A O : Type 0} (stop : Stop World) (wait : Wait World)
    (hooks : ExecutionHooks World R A O) (stops : RetryState → Bool) (asks : RetryState → Duration)
    (stop_eq : (s : RetryState) (w : World) → (stop s w).0 ≡ stops s)
    (wait_eq : (s : RetryState) (w : World) → (wait s w).0 ≡ asks s) where
  pub settle-done :
      (timeout : Option Duration) (p : Progress) (verdict : Verdict R A O) (w : World)
      → settles verdict (stops (state_of p) || spent timeout p.elapsed) ≡ true
      → let f = answered verdict p.attempt p.elapsed p.total_wait in
        (settle p stop wait timeout hooks verdict w).0 ≡ Step.done f.0 f.1
  unfolding settle stats_for
  settle-done timeout p (Verdict.accept value) w h = refl
  settle-done timeout p (Verdict.abort last) w h = refl
  settle-done none p (Verdict.retry last) w h = rw (stop_eq, h) refl
  settle-done (some t) p (Verdict.retry last) w h = rw (stop_eq, h) refl

  pub settle-again :
      (timeout : Option Duration) (p : Progress) (verdict : Verdict R A O) (w : World)
      → settles verdict (stops (state_of p) || spent timeout p.elapsed) ≡ false
      → let delay = cut timeout p.elapsed (asks (state_of p)) in
        (settle p stop wait timeout hooks verdict w).0
        ≡ Step.again delay (saturating_add p.total_wait delay)
  unfolding settle
  settle-again timeout p (Verdict.accept value) w h = cc
  settle-again timeout p (Verdict.abort last) w h = cc
  settle-again none p (Verdict.retry last) w h = rw (stop_eq, h, wait_eq) refl
  settle-again (some t) p (Verdict.retry last) w h = rw (stop_eq, h, wait_eq) refl
