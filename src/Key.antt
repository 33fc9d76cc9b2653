-- ===== src/Key.antt =====
-- types/key: hexadecimal texts of keys with a type prefix, and the client's private key.
pub mod Mem
pub mod Hex
pub mod Client
pub mod RoundTrip
pub mod Accepts
pub use Mem.*
mod Tests
