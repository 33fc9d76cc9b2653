-- ===== src/ControlPlane.antt =====
-- rcn/controlplane/control_plane.go: the peers that the node talks to and the messages about them.
pub mod Peer
pub mod Defs
pub mod Offer
pub mod Loop
pub mod Serving
pub mod Served
pub mod Clashed
pub mod Within
pub mod Reached
pub mod Sync
pub mod Kept
pub mod Dispatch
mod Tests
mod ClashTests
mod ReachedTests
mod ServingTests
