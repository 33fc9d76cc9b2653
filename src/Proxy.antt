-- ===== src/Proxy.antt =====
-- rcn/proxy/wire_proxy.go and rcn/conn/conn.go: the connection of one peer and its WireGuard proxy.
pub mod Address
pub mod Defs
pub mod Choice
pub mod Starting
pub mod Monitor
pub mod Forwarding
pub mod Conn
pub mod Roles
pub mod Lifetime
mod Tests
