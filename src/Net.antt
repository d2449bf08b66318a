-- ===== src/Net.antt =====
-- crates/net: the packets of a game and their acknowledgement.
pub mod AckQueue
