-- ===== src/Daemon.antt =====
-- daemon/daemon_linux_systemd.go: installing, starting and stopping the daemon under systemd.
pub mod Systemd
pub mod Install
pub mod Launchd
pub mod Refused
pub mod Stale
pub mod Copied
pub mod Commands
pub mod InPlace
mod Tests
mod DiskTests
pub mod Interface
pub mod Constants
pub mod Upstart
pub mod SystemV
pub mod Linux
