-- ===== src/Node.antt =====
-- crates/node: the server that a game runs on.
pub mod Sync
pub mod Session
pub mod Player
pub mod Delay
pub mod Clock
pub mod DelayedFrames
pub mod Dispatch
