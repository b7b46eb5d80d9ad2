-- ===== src/Wait.antt =====
-- src/wait: how long to wait between attempts.
mod Base
pub mod Math
pub mod Strategies
pub mod Composition
pub mod Jitter
unfoldable pub use Base.{Wait, boxed}
