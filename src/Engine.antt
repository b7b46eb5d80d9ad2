-- ===== src/Engine.antt =====
-- src/engine: the retry engine, in the parts of its source files.
pub mod State
pub mod Stats
pub mod Error
pub mod Hooks
pub mod Op
pub mod Step
pub mod Sync
pub mod Async
