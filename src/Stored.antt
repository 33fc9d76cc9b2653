-- ===== src/Stored.antt =====
-- utils/file.go, store, paths and conf/spec.go: what the client keeps on disk.
pub mod Files
pub mod Atomic
pub mod FileStore
pub mod Reopened
pub mod ClientStore
pub mod Persistent
pub mod Spec
pub mod Configured
pub mod Restarted
pub mod Tests
mod RestartTests
