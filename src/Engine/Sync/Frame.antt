-- ===== src/Engine/Sync/Frame.antt =====
-- What a round of the loop in src/engine/mod.rs does to the world, from what its parts do.
use tenacious.Prelude.{Bool-cases, inl, inr, ◌≡◌, ◌||◌, ◌∙◌}
use tenacious.State.{RetryState}
use tenacious.Decision.{Verdict}
use tenacious.Engine.State.{AttemptState, Exit}
use tenacious.Duration.{Duration}
use tenacious.Engine.Step.{Progress, settle, step, timeout_exceeded, state_of}
use tenacious.Engine.Sync.Outcome.{at_return}
use tenacious.Engine.Sync.{Retry, Cursor, round, elapsed}

-- Every part but the operation and the clock takes a world to a related one.
pub record Steady {World R A O : Type 0} (Rel : World → World → Type 0) (self : Retry World R A O)
    : Type 0 where
  pub classifier : (outcome : O) (w : World) → Rel w (self.classifier outcome w).1
  pub stop : (state : RetryState) (w : World) → Rel w (self.stop state w).1
  pub wait : (state : RetryState) (w : World) → Rel w (self.wait state w).1
  pub before_attempt : (view : RetryState) (w : World) → Rel w (self.hooks.before_attempt view w).1
  pub after_attempt :
      (view : AttemptState O) (w : World) → Rel w (self.hooks.after_attempt view w).1
  pub on_exit : (view : Exit R A O) (w : World) → Rel w (self.hooks.on_exit view w).1

-- So does the operation.
pub record Moves {World R A O : Type 0} (Rel : World → World → Type 0) (self : Retry World R A O)
    : Type 0 where
  pub op : (state : RetryState) (w : World) → Rel w (self.op state w).1
  pub rest : Steady Rel self

module _ {World R A O : Type 0} (Rel : World → World → Type 0)
    (trans : (u v w : World) → Rel u v → Rel v w → Rel u w) (self : Retry World R A O)
    (steady : Steady Rel self) where
  pub settle-Rel :
      (p : Progress) (verdict : Verdict R A O) (w : World)
      → Rel w (settle p self.stop self.wait self.timeout self.hooks verdict w).1
  unfolding settle
  settle-Rel p (Verdict.accept value) w = steady.on_exit _ w
  settle-Rel p (Verdict.abort last) w = steady.on_exit _ w
  settle-Rel p (Verdict.retry last) w =
      elim (Bool-cases ((self.stop (state_of p) w).0 || timeout_exceeded self.timeout p.elapsed)) [
        | inl e ↦ rw e (trans _ _ _ (steady.stop _ w) (steady.on_exit _ _))
        | inr e ↦ rw e (trans _ _ _ (steady.stop _ w) (steady.wait _ _))
      ]

  -- From the end of the operation to that of the round.
  pub after_return-Rel :
      ((w : World) → Rel w (self.clock.now w).1)
      → (origin : Duration) (c : Cursor) (w : World)
      → Rel (at_return self origin c w) (round self origin c w).1
  unfolding round step elapsed
  after_return-Rel now origin c w =
      trans _ _ _
        (trans _ _ _ (trans _ _ _ (now _) (steady.after_attempt _ _)) (steady.classifier _ _))
        (settle-Rel _ _ _)

module _ {World R A O : Type 0} (Rel : World → World → Type 0)
    (trans : (u v w : World) → Rel u v → Rel v w → Rel u w) (self : Retry World R A O)
    (now : (w : World) → Rel w (self.clock.now w).1) (moves : Moves Rel self) where
  -- Up to the end of the operation.
  pub at_return-Rel :
      (origin : Duration) (c : Cursor) (w : World) → Rel w (at_return self origin c w)
  unfolding elapsed
  at_return-Rel origin c w =
      trans _ _ _ (trans _ _ _ (now w) (moves.rest.before_attempt _ _)) (moves.op _ _)

  pub round-Rel : (origin : Duration) (c : Cursor) (w : World) → Rel w (round self origin c w).1
  round-Rel origin c w =
      trans _ _ _ (at_return-Rel origin c w)
        (after_return-Rel Rel trans self moves.rest now origin c w)

-- Part of the world, as `look` sees it, that only the clock's `wait` may change.
pub record Keeps {World R A O X : Type 0} (look : World → X) (self : Retry World R A O)
    : Type 0 where
  pub now : (w : World) → look (self.clock.now w).1 ≡ look w
  pub parts : Moves (λ w v. look v ≡ look w) self

module _ {World R A O X : Type 0} (look : World → X) (self : Retry World R A O)
    (keeps : Keeps look self) where
  pub round-look :
      (origin : Duration) (c : Cursor) (w : World) → look (round self origin c w).1 ≡ look w
  round-look = round-Rel (λ w v. look v ≡ look w) (λ _ _ _ p q. q ∙ p) self keeps.now keeps.parts

  -- Up to the end of the operation.
  at_return-look :
      (origin : Duration) (c : Cursor) (w : World) → look (at_return self origin c w) ≡ look w
  at_return-look =
      at_return-Rel (λ w v. look v ≡ look w) (λ _ _ _ p q. q ∙ p) self keeps.now keeps.parts
