-- ===== src/Lib.antt =====
-- FLO, a toolkit for hosting Warcraft III games: a model of the parts that decide what happens in a game,
-- and proofs that they are correct. Paths are from the root of the repository.
--
-- Common.antt - names passed on from the libraries, Boolean tests, lists with native lengths, the values of an
--   i32, code that may panic, predicates over lists.
-- Controller.antt - crates/controller, the lobby of a game. Types is crates/controller/src/game/types.rs; Slots
--   is crates/controller/src/game/slots.rs, with `update_slot_at` in Slots/Update; the other children of
--   Slots prove. A method that returns a reference into the slots returns the index here; the state after a
--   call is part of its result; an index out of bounds is `panic`. Player ids, which are only compared, are
--   numbers; the settings keep the sign of an i32.
-- StatString.antt - crates/util/src/stat_string.rs. A byte is a number below 256, a `Vec<u8>` a list.
-- Node.antt - crates/node, the server that a game runs on. Sync is crates/node/src/game/host/sync.rs, the
--   acknowledgements of the ticks of a game, with `check_desync` in Sync/Desync and the interface of the
--   slab crate in Sync/Slab; its other children prove. Session is crates/node/src/game/mod.rs, the status of
--   a game, with the updates in Session/Update. The instant of a call is an argument; a u32 wraps.
--   Player is crates/node/src/game/host/player.rs, with the stream's channel as a parameter, and Delay the
--   computation of delays in crates/node/src/game/host/delay_equalizer.rs, of which Delay/Equalizer is
--   the choice of the slowest player. Clock is the tick stream of crates/node/src/game/host/clock.rs,
--   and DelayedFrames is crates/node/src/game/host/delay.rs.
--   Dispatch is crates/node/src/game/host/dispatch.rs: Fragments cuts the actions of a tick into packets,
--   Shared is the state that the tasks of a game share with the sending and the removal of players, Lag the
--   players that are waited for, Tick a tick and an acknowledgement, Loop the tick task, which is a turn for
--   each thing that `select` may find ready, and Peers the messages of the connections. Their children
--   prove. The state after a call is part of its result; `stuck` is fuel that ran out.
-- Net.antt - crates/net. AckQueue is `W3GSAckQueue` of crates/net/src/w3gs.rs; AckQueue/Send and AckQueue/Receive
--   count packets without a bound and relate them to their u32 numbers.
-- W3gs.antt - crates/w3gs. Action is crates/w3gs/src/protocol/action.rs, with `split_chunks` in Action/Chunks;
--   Buffer reads bytes from the front.
-- Tests.antt - runs on concrete inputs, and the theorems at inputs that meet their hypotheses.
--
-- Most loops go over a list. Three have fuel: the reading of actions, as many turns as there are bytes, of
-- which an action takes three at least; the time slots of a tick, as many turns as there are actions, of which
-- each turn takes one off; and the removal of a player, which may call itself, as many times as there are
-- players on the map, of which each call takes one off. That the fuel is enough is proved.
--
-- The host of a game and the slab crate are records of operations that the session and the tick map take; the
-- player connection uses the packet queue, the dispatcher the connections, the tick map and the tick stream, and the tests run the parts on concrete values.
--
-- Not modelled: of the dispatcher, chat, pings and the worker of a connection;
-- database and network access, the desktop client, map and replay files, and the protocol encodings that the
-- derive macros of crates/codegen generate.
pub mod Common
pub mod Controller
pub mod Net
pub mod Node
pub mod StatString
pub mod Tests
pub mod W3gs
