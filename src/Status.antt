-- ===== src/Status.antt =====
-- rcn/conn/status.go and the calls of client/grpc/signal_client.go that read and write it: whether
-- the node is connected, and the channel on which goroutines wait for that.
pub mod Defs
pub mod Waiting
pub mod Soundness
pub mod Stream
pub mod Requests
pub mod Endings
pub mod Ends
mod Tests
