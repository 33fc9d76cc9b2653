-- ===== src/Engine.antt =====
-- engine/engine.go and engine/wonderwall/wonderwall.go: Start and Stop under the lock.
pub mod Defs
pub mod Stuck
mod Tests
