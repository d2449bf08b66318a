-- ===== src/Node/Sync/Ack.antt =====
-- crates/node/src/game/host/sync.rs: `ack` on every branch.
use w3c_flo.Common.{ℕ, ◌+◌, ◌≡◌, ◌≢◌, none, some}
use w3c_flo.Common.Maps.{get, insert}
use w3c_flo.Node.Sync.{
  SyncMap, Pending, PlayerState, AckReturn, player_not_found, tick_not_found, u32,
}
use w3c_flo.Node.Sync.Slab.{SlabOps}
use w3c_flo.Node.Sync.Counts.{acked_checks, Counts}

-- What `ack` does on each branch: the player is unknown; the clock has not reached the player's next
-- tick; some player has not acknowledged that tick yet; all have, with the same checksum; all have,
-- and the checksums differ.
pub data Acks (S : SlabOps Pending) (m : SyncMap S.Slab) (player_id checksum now : ℕ)
    (r : SyncMap S.Slab × AckReturn) : Type 0 where
  unknown :
      get player_id m.players ≡ none
      → r ≡ (m, player_not_found player_id)
      → Acks S m player_id checksum now r
  early :
      (state : PlayerState)
      → get player_id m.players ≡ some state
      → get (u32 (state.tick + 1)) m.pending_tick ≡ none
      → r.0 ≡ record m {
        players = insert player_id (record state { tick = u32 (state.tick + 1) }) m.players;
      }
      → r.1
        ≡ tick_not_found (record {
          player_id = player_id;
          tick = u32 (state.tick + 1);
          time = m.time;
          checksum = checksum;
        })
      → Acks S m player_id checksum now r
  acknowledges :
      (state : PlayerState) (id : ℕ) (item : Pending)
      → get player_id m.players ≡ some state
      → get (u32 (state.tick + 1)) m.pending_tick ≡ some id
      → S.read id m.pending_slab ≡ some item
      → r.0.players
        ≡ insert player_id
            (record { tick = u32 (state.tick + 1); time = item.checks.time })
            m.players
      → Counts m now
          (u32 (state.tick + 1))
          item
          (acked_checks player_id checksum item.checks)
          checksum
          r.0.pending_tick
          (S.read id r.0.pending_slab)
          r.1
      → ((t' id' : ℕ)
          → u32 (state.tick + 1) ≢ t'
          → get t' m.pending_tick ≡ some id'
          → S.read id' r.0.pending_slab ≡ S.read id' m.pending_slab)
      → Acks S m player_id checksum now r
