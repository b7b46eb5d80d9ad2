-- ===== src/Engine/Stats.antt =====
-- src/engine/stats.rs: the figures of a finished run.
use tenacious.Prelude.{ℕ}
use tenacious.Duration.{Duration}
use tenacious.Engine.State.{StopReason}

pub record RetryStats : Type 0 where
  pub attempts : ℕ
  pub total_elapsed : Duration
  pub total_wait : Duration
  pub stop_reason : StopReason
