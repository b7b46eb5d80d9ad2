-- ===== src/Engine/Op.antt =====
-- src/engine/op.rs: the operation that an attempt calls.
use tenacious.Prelude.{M}
use tenacious.State.{RetryState}

-- `call_op`, the one method of `RetryOp` (with `T` the outcome) and of `AsyncRetryOp` (with `T` the
-- future). `&mut self` is part of the world.
abbrev pub RetryOp : Type 0 → Type 0 → Type 0
RetryOp World T = RetryState → M World T

-- `StatelessOp`, over a closure that takes no argument.
unfoldable pub stateless_op : {World T : Type 0} → M World T → RetryOp World T
stateless_op f _ = f
