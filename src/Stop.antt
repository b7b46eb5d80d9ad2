-- ===== src/Stop.antt =====
-- src/stop: when the loop gives up.
pub mod Laws
use tenacious.Prelude.{
  ℕ, ◌≤◌, ◌≡◌, Bool, false, true, ◌&&◌, ◌||◌, M, pure, ◌>>=◌, Option, none, some,
}
use tenacious.Prelude.{leb, if◌then◌else◌}
use tenacious.Duration.{Duration}
use tenacious.State.{RetryState}

-- `should_stop`, the one required method of the trait `Stop`. `&self` may hide cells.
abbrev pub Stop : Type 0 → Type 0
Stop World = RetryState → M World Bool

-- `max` is a `u32`.
pub record StopAfterAttempts : Type 0 where
  pub max : ℕ

pub record StopAfterElapsed : Type 0 where
  pub deadline : Duration

-- The factory `stop::attempts`; `none` is its panic at 0.
unfoldable pub attempts : ℕ → Option StopAfterAttempts
attempts max = if leb 1 max then some (record { max = max }) else none

unfoldable pub elapsed : Duration → StopAfterElapsed
elapsed deadline = record { deadline = deadline }

module _ {World : Type 0} where
  unfoldable pub after_attempts : StopAfterAttempts → Stop World
  after_attempts self state = pure (leb self.max state.attempt)

  unfoldable pub after_elapsed : StopAfterElapsed → Stop World
  after_elapsed self state = pure (leb self.deadline state.elapsed)

  -- A boxed or a borrowed strategy asks the one behind the pointer.
  unfoldable pub boxed : Stop World → Stop World
  boxed self state = self state

  -- `StopNever`
  unfoldable pub never : Stop World
  never state = pure false

  -- `StopAny`, which `.or` builds. Both sides are asked, the left one first.
  unfoldable pub any : Stop World → Stop World → Stop World
  any left right state = do l ← left state; r ← right state; pure (l || r)

  -- `StopAll`, which `.and` builds. Both sides are asked, the left one first.
  pub all : Stop World → Stop World → Stop World
  all left right state = do l ← left state; r ← right state; pure (l && r)

-- The operators `|` and `&`.
unfoldable bitor : {World : Type 0} → Stop World → Stop World → Stop World
bitor self rhs = any self rhs

unfoldable bitand : {World : Type 0} → Stop World → Stop World → Stop World
unfolding all
bitand self rhs = all self rhs

-- The strategy stops once `n` attempts have been made, whatever the world.
abbrev pub StopsBy : {World : Type 0} → ℕ → Stop World → Type 0
StopsBy {World} n stop =
    (state : RetryState) (w : World) → n ≤ state.attempt → (stop state w).0 ≡ true
