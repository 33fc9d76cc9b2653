-- ===== src/Rcn.antt =====
-- rcn/rcnsock: the local socket, and a status request over it.
pub mod Sock
pub mod Answered
mod Tests
