-- ===== src/Server.antt =====
-- client/grpc/server_client.go: the client of the server, and the login.
pub mod Defs
pub mod Session
mod Tests
