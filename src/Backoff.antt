-- ===== src/Backoff.antt =====
-- backoff/backoff.go: retry policies and the retry loop.
pub mod Policy
pub mod Exponential
pub mod Retry
pub mod Tries
pub mod Exhausted
pub mod Outcome
pub mod Kept
pub mod Timer
pub mod Stopped
pub mod Interval
mod Tests
mod TimerTests
