-- ===== src/Tests.antt =====
-- Runs of the model on concrete inputs, and the theorems at inputs that meet their hypotheses.
mod Encoding
mod Lobby
mod Ticks
mod Sessions
mod Packets
mod Messages
mod Dispatch
