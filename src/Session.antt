-- ===== src/Session.antt =====
-- rcn/webrtc: the session with one peer, from its setup to its cleanup.
pub mod Defs
pub mod Setup
pub mod Signal
pub mod Methods
pub mod Prepared
pub mod Cleared
pub mod Cleaned
pub mod Synced
pub mod Looped
pub mod Progress
pub mod Gathering
mod Tests
