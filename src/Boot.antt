-- ===== src/Boot.antt =====
-- conf/conf.go, rcn/rcn.go and the commands: how the client starts and stops.
pub mod Conf
pub mod Store
pub mod Keys
pub mod Identity
mod Tests
pub mod Rcn
pub mod Commands
pub mod Stopped
pub mod ClientUp
pub mod DaemonCommands
pub mod Unmanaged
mod UpTests
mod CommandTests
