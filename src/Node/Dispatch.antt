-- ===== src/Node/Dispatch.antt =====
-- crates/node/src/game/host/dispatch.rs: what the players of a game share, and what is sent to them.
pub mod Fragments
pub mod Packets
pub mod Shared
pub mod Lag
pub mod Tick
pub mod Loop
pub mod Peers
