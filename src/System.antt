-- ===== src/System.antt =====
-- system: what a node tells the server of its system.
pub mod Text
pub mod Info
pub mod Release
pub mod Reads
mod Tests
