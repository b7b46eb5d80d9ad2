-- ===== src/Wait/Base.antt =====
-- src/wait/mod.rs: the trait of the wait strategies.
use tenacious.Prelude.{M}
use tenacious.Duration.{Duration}
use tenacious.State.{RetryState}

-- `next_wait`, the one required method of the trait `Wait`. `&self` may hide cells, such as the
-- state of a random generator.
abbrev pub Wait : Type 0 → Type 0
Wait World = RetryState → M World Duration

-- A boxed or a borrowed strategy asks the one behind the pointer.
unfoldable pub boxed : {World : Type 0} → Wait World → Wait World
boxed self state = self state
