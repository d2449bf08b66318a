-- ===== src/W3gs.antt =====
-- crates/w3gs: the messages between a game and its players, as bytes. A byte is a number below 256.
pub mod Buffer
pub mod Action
