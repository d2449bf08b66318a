-- ===== src/Controller.antt =====
-- crates/controller: the lobby of a game.
pub mod Types
pub mod Slots
