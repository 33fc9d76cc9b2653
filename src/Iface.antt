-- ===== src/Iface.antt =====
-- iface: the WireGuard interface of the node and the peers that are set on it.
pub mod Defs
pub mod Linux
pub mod Darwin
pub mod Opened
pub mod Closed
pub mod Table
pub mod Refined
pub mod Joined
mod Tests
mod ProxyTests
