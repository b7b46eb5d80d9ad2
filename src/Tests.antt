-- ===== src/Tests.antt =====
-- The theorems at concrete retries, and runs of these.
pub mod Fixtures
mod Loop
mod Async
mod Strategies
mod Limits
mod Draws
mod Specification
mod Clocks
mod Texts
mod Examples
mod Timing
mod Timelines
mod Traces
mod Units
