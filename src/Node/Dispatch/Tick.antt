-- ===== src/Node/Dispatch/Tick.antt =====
-- crates/node/src/game/host/dispatch.rs: a tick of the game, the acknowledgements of the players, and a
-- stream that is closed.
pub mod Sound
pub mod Delivered
pub mod Targets
pub mod Desyncs
use w3c_flo.Common.{
  ℕ, ◌+◌, Bool, true, false, not, ◌&&◌, Option, none, some, List, [], ◌∷◌, ◌++◌, ltb, ◌==◌,
  if◌then◌else◌, length,
}
use w3c_flo.Common.Maps.{SortedMap, SortedSet, get, has_key, insert}
use w3c_flo.W3gs.Action.{PlayerAction, TimeSlot}
use w3c_flo.Node.Player.{set_last_disconnect, take_stream}
use w3c_flo.Node.Clock.{Tick}
use w3c_flo.Node.Sync
use w3c_flo.Node.Sync.{ClockResult, lag, tick, AckReturn, AckResult, clock}
use w3c_flo.Node.Sync.Desync.{PlayerDesync}
use w3c_flo.Node.Dispatch.Fragments.{dispatch_actions_mtu, fragment}
use w3c_flo.Node.Dispatch.Packets.{
  Packet, incoming_action, incoming_action2, desync_detected, everyone, push_w3gs,
  push_tick_checksum, PlayerInfo,
}
use w3c_flo.Node.Dispatch.Shared.{
  Host, Shared, Run, finished, stuck, ◌>>=◌, run, Sh, broadcast, broadcast_message,
  remove_player_and_broadcast,
}
use w3c_flo.Node.Dispatch.Lag.{handle_lag}

pub data DispatchResult : Type 0 where
  continue : DispatchResult
  lagged : Tick → DispatchResult

pub data AckAction : Type 0 where
  ack_continue check_stop : AckAction

pub data ClosePlayerStreamResult : Type 0 where
  closed_disconnected closed_left closed_lagging skipped : ClosePlayerStreamResult

module _ (H : Host) (now : ℕ) where
  open H use {slab_ops}

  -- A packet for the observers and for all players.
  unfoldable pub publish : Packet → Sh H now → Run (Sh H now)
  publish packet s =
      broadcast H now packet everyone (record s { obs = s.obs ++ (push_w3gs packet ∷ []) })

  unfoldable pub publish_slots : List (List PlayerAction) → Sh H now → Run (Sh H now)
  unfolding publish
  publish_slots [] s = finished s
  publish_slots (slot ∷ slots) s = do
    s' ← publish (incoming_action2 (record { time_increment_ms = 0; actions = slot })) s
    publish_slots slots s'

  unfoldable pub publish_fragments :
      ℕ → Option (List (List PlayerAction) × List PlayerAction) → Sh H now → Run (Sh H now)
  unfolding publish_slots publish
  publish_fragments time none s = stuck
  publish_fragments time (some (slots, last)) s = do
    s' ← publish_slots slots s
    publish (incoming_action (record { time_increment_ms = time; actions = last })) s'

  -- The actions of a tick that is not held up. The time slots are made first and sent then: sending them
  -- does not touch the actions. Fuel is the number of the actions.
  unfoldable pub publish_tick : Tick → Sh H now → Run (Sh H now)
  unfolding publish_fragments
  publish_tick t s =
      publish_fragments t.time_increment_ms
        (fragment (length t.actions) t.actions_bytes_len t.actions) s

  -- Whether the tick waits for players.
  unfoldable pub hold_tick : ClockResult → Sh H now → Run (Bool × Sh H now)
  hold_tick tick s = finished (false, s)
  hold_tick (lag player_ids) s = handle_lag H now player_ids s

  unfoldable pub send_or_keep : Tick → Bool × Sh H now → Run (DispatchResult × Sh H now)
  unfolding publish_tick
  send_or_keep t (true, s) = finished (lagged t, s)
  send_or_keep t (false, s) = do s' ← publish_tick t s; finished (continue, s')

  unfoldable pub dispatch_action_tick : Tick → Sh H now → Run (DispatchResult × Sh H now)
  unfolding hold_tick send_or_keep
  dispatch_action_tick t s = do
    (sync, result) ← run (clock slab_ops s.sync t.time_increment_ms now)
    r ← hold_tick result (record s { sync = sync })
    send_or_keep t r

  -- The players that a report names, each once, that are on the map.
  unfoldable pub desync_targets :
      SortedSet → List PlayerDesync → SortedMap PlayerInfo → List PlayerDesync
  desync_targets handled [] m = []
  desync_targets handled (d ∷ ds) m =
      let rest = desync_targets handled ds m in
      let fresh = desync_targets (insert d.player_id tt handled) ds m in
      if has_key d.player_id handled
      then rest
      else if has_key d.player_id m
      then d ∷ fresh
      else fresh

  unfoldable pub remove_desynced : List PlayerDesync → Sh H now → Run (Sh H now)
  remove_desynced [] s = finished s
  remove_desynced (d ∷ ds) s = do
    s' ←
        remove_player_and_broadcast H now d.player_id none
          (broadcast_message H now (desync_detected d.player_id d.time d.tick) s)
    remove_desynced ds s'

  unfoldable pub handle_desync : List PlayerDesync → Sh H now → Run (Sh H now)
  unfolding desync_targets remove_desynced
  handle_desync desync s = remove_desynced (desync_targets [] desync s.map) s

  abbrev pub desync_list : Option (List PlayerDesync) → List PlayerDesync
  desync_list none = []
  desync_list (some ds) = ds

  abbrev pub is_none {ℓ} : {A : Type ℓ} → Option A → Bool
  is_none none = true
  is_none (some a) = false

  unfoldable pub observe_checksum : AckResult → Sh H now → Sh H now
  observe_checksum res s = elim res.agreed_checksum [
    | none ↦ s
    | some checksum ↦ record s { obs = s.obs ++ (push_tick_checksum res.game_tick checksum ∷ []) }
  ]

  unfoldable pub ack_returned : ℕ → AckReturn → Sh H now → Run (AckAction × Sh H now)
  unfolding observe_checksum handle_desync
  ack_returned player_id (Sync.ok res) s = do
    s' ← handle_desync (desync_list res.desync) (observe_checksum res s)
    finished (
      if not (has_key player_id s'.lagging_player_ids) && is_none res.desync
          then ack_continue
          else check_stop,
      s',
    )
  ack_returned player_id (Sync.player_not_found p) s =
      finished (if has_key player_id s.lagging_player_ids then check_stop else ack_continue, s)
  ack_returned player_id (Sync.tick_not_found d) s = do
    s' ← handle_desync (d ∷ []) s
    finished (if has_key player_id s'.lagging_player_ids then check_stop else ack_continue, s')

  unfoldable pub ack_player : ℕ → ℕ → Sh H now → Run (AckAction × Sh H now)
  unfolding ack_returned
  ack_player player_id checksum s = do
    (sync, result) ← run (Sync.ack slab_ops s.sync player_id checksum now)
    ack_returned player_id result (record s { sync = sync })

  -- Before the game has started, a player that disconnects leaves.
  unfoldable pub close_found : ℕ → Option ℕ → Sh H now → Run (ClosePlayerStreamResult × Sh H now)
  close_found player_id none s = finished (skipped, s)
  close_found player_id (some stream) s =
      if s.started
      then finished
          (closed_disconnected, record s { closed_streams = s.closed_streams ++ (stream ∷ []) })
      else (do
        s' ← remove_player_and_broadcast H now player_id none s
        finished
            (if has_key player_id s'.lagging_player_ids then closed_lagging else closed_left, s'))

  -- The stream that is taken is the player's current one.
  unfoldable pub handle_peer_stream_close : ℕ → Sh H now → Run (ClosePlayerStreamResult × Sh H now)
  unfolding close_found
  handle_peer_stream_close player_id s = elim (get player_id s.map) [
    | none ↦ finished (skipped, s)
    | some info ↦
        let (stream, info') = take_stream (set_last_disconnect now info) in
        close_found player_id stream (record s { map = insert player_id info' s.map })
  ]
