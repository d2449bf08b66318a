-- ===== src/Node/Dispatch/Peers.antt =====
-- crates/node/src/game/host/dispatch.rs: the messages of the players' connections. The channels to the tick
-- task and to the game session are open: `action_tx` and `out_tx` are what has been sent, in order.
-- Decoding of packets, the chat and the pings are left out.
pub mod Leave
use w3c_flo.Common.{ℕ, Bool, true, false, Option, none, some, List, [], ◌∷◌, ◌++◌, if◌then◌else◌}
use w3c_flo.Common.Maps.{SortedMap, SortedSet, get, has_key, insert}
use w3c_flo.W3gs.Action.{PlayerAction}
use w3c_flo.Net.AckQueue.{W3gsMetadata}
use w3c_flo.Node.Player.{
  update_ack, send_w3gs, pristine, register_sender, get_resend_frames,
  update_lag_ms_after_reconnect,
}
use w3c_flo.Node.Session.{GameEvent, player_status_change}
use w3c_flo.Node.Session.Status.{
  SlotClientStatus, connected, loaded, disconnected, left, SlotClientStatusUpdateSource,
}
use w3c_flo.Node.Session.Status
use w3c_flo.Node.Dispatch.Packets.{
  LeaveReason, PacketTypeId, leave_ack, packet_type_id, PlayerInfo, reconnected, W3gsFrame,
}
use w3c_flo.Node.Dispatch.Shared.{
  Host, Shared, Run, finished, ◌>>=◌, Sh, remove_player_and_broadcast, broadcast_message,
}
use w3c_flo.Node.Dispatch.Lag.{RequestDropResult, no_lagging_player, voting, dropped, request_drop}
use w3c_flo.Node.Dispatch.Tick.{
  AckAction, ack_continue, check_stop, ack_player, ClosePlayerStreamResult, closed_disconnected,
  closed_left, closed_lagging, skipped, handle_peer_stream_close,
}
use w3c_flo.Node.Dispatch.Loop.{
  ActionMsg, player_action, check_stop_lag_msg, resume_clock, DispatchStatus, pending, running,
  paused,
}

-- `Error::PlayerNotFoundInGame`, or none.
pub data PeerResult : Type 0 where
  peer_ok player_not_found : PeerResult

-- `status != DispatchStatus::Pending` decides.
abbrev pub status_after_reconnect : DispatchStatus → SlotClientStatus
status_after_reconnect pending = connected
status_after_reconnect running = loaded
status_after_reconnect paused = loaded

module _ (H : Host) (now : ℕ) where
  open H use {try_send}

  pub record State : Type 0 where
    pub shared : Sh H now
    pub left_players : SortedSet
    pub action_tx : List ActionMsg
    pub out_tx : List GameEvent

  unfoldable pub send_action : ActionMsg → State → State
  send_action msg st = record st { action_tx = st.action_tx ++ (msg ∷ []) }

  unfoldable pub send_status : ℕ → SlotClientStatus → State → State
  send_status player_id status st = record st {
    out_tx =
        st.out_tx ++ (player_status_change player_id status SlotClientStatusUpdateSource.node ∷ []);
  }

  unfoldable pub closed_with : ℕ → ClosePlayerStreamResult × Sh H now → State → State
  unfolding send_action send_status
  closed_with player_id (closed_disconnected, s) st =
      send_status player_id disconnected (record st { shared = s })
  closed_with player_id (closed_left, s) st =
      send_status player_id left
        (record st { shared = s; left_players = insert player_id tt st.left_players })
  closed_with player_id (skipped, s) st =
      send_status player_id disconnected (record st { shared = s })
  closed_with player_id (closed_lagging, s) st =
      send_status player_id left (send_action check_stop_lag_msg (record st { shared = s }))

  -- `PeerMsg::Closed`. The id of the stream is only logged.
  unfoldable pub on_closed : ℕ → ℕ → State → Run State
  unfolding closed_with
  on_closed player_id stream_id st = if has_key player_id st.left_players then finished st else (do
    r ← handle_peer_stream_close H now player_id st.shared
    finished (closed_with player_id r st))

  -- The player is told that it may leave.
  unfoldable pub send_leave_ack : ℕ → PlayerInfo → Sh H now → Sh H now
  send_leave_ack player_id info s = record s {
    map = insert player_id (send_w3gs try_send (packet_type_id leave_ack) leave_ack info).1 s.map;
  }

  unfoldable pub check_lag_then_left : ℕ → State → State
  unfolding send_action send_status
  check_lag_then_left player_id st = send_status player_id left (
      if has_key player_id st.shared.lagging_player_ids
      then send_action check_stop_lag_msg st
      else st)

  unfoldable pub leave_found :
      ℕ → Option LeaveReason → Option PlayerInfo → State → Run (PeerResult × State)
  unfolding send_leave_ack check_lag_then_left
  leave_found player_id reason none st = finished (player_not_found, st)
  leave_found player_id reason (some info) st = do
    s ← remove_player_and_broadcast H now player_id reason (send_leave_ack player_id info st.shared)
    finished (peer_ok, check_lag_then_left player_id (record st { shared = s }))

  unfoldable pub handle_player_leave : ℕ → Option LeaveReason → State → Run (PeerResult × State)
  unfolding leave_found
  handle_player_leave player_id reason st =
      leave_found player_id reason (get player_id st.shared.map)
        (record st { left_players = insert player_id tt st.left_players })

  -- `PeerMsg::Shutdown`.
  unfoldable pub on_shutdown : ℕ → Option LeaveReason → State → Run (PeerResult × State)
  unfolding handle_player_leave
  on_shutdown player_id reason st =
      if has_key player_id st.left_players
      then finished (peer_ok, st)
      else handle_player_leave player_id reason st

  -- The start of `dispatch_incoming_w3gs`: the id that the player's packets carry, unless the packet has
  -- been handled before.
  unfoldable pub accept_packet :
      ℕ → W3gsMetadata PacketTypeId → State → PeerResult × Option ℕ × State
  accept_packet player_id meta st = elim (get player_id st.shared.map) [
    | none ↦ (player_not_found, none, st)
    | some info ↦
        let (handled, info') = update_ack meta info in
        let st' = record st {
          shared = record (st.shared) { map = insert player_id info' st.shared.map };
        } in
        (peer_ok, if handled then some info.slot_player_id else none, st')
  ]

  -- Its branches, for a packet that is accepted.
  unfoldable pub on_outgoing_action : ℕ → List ℕ → State → State
  unfolding send_action
  on_outgoing_action slot_player_id payload st =
      send_action (player_action (record { player_id = slot_player_id; payload = payload })) st

  unfoldable pub drop_answered : RequestDropResult × Sh H now → State → State
  unfolding send_action
  drop_answered (no_lagging_player, s) st = record st { shared = s }
  drop_answered (voting, s) st = record st { shared = s }
  drop_answered (dropped, s) st = send_action resume_clock (record st { shared = s })

  unfoldable pub on_drop_req : ℕ → State → Run State
  unfolding drop_answered
  on_drop_req player_id st = do
    r ← request_drop H now player_id st.shared
    finished (drop_answered r st)

  unfoldable pub ack_answered : AckAction × Sh H now → State → State
  unfolding send_action
  ack_answered (ack_continue, s) st = record st { shared = s }
  ack_answered (check_stop, s) st = send_action check_stop_lag_msg (record st { shared = s })

  unfoldable pub on_keep_alive : ℕ → ℕ → State → Run State
  unfolding ack_answered
  on_keep_alive player_id checksum st = do
    r ← ack_player H now player_id checksum st.shared
    finished (ack_answered r st)

  -- A player that comes back gets the packets again that it has not acknowledged.
  unfoldable pub register_found :
      DispatchStatus → ℕ → ℕ → PlayerInfo → State → Option (List W3gsFrame) × State
  unfolding send_status
  register_found status player_id stream_id info st =
      let info' = register_sender stream_id info in
      let fresh = record (st.shared) { map = insert player_id info' st.shared.map } in
      let back = record (st.shared) {
        map = insert player_id (update_lag_ms_after_reconnect now info') st.shared.map;
      } in
      if pristine info
      then (none, send_status player_id connected (record st { shared = fresh }))
      else (
        get_resend_frames info',
        send_status player_id (status_after_reconnect status)
            (record st { shared = broadcast_message H now (reconnected player_id) back }),
      )

  unfoldable pub register_at :
      DispatchStatus → ℕ → ℕ → Option PlayerInfo → State → Option (Option (List W3gsFrame)) × State
  unfolding register_found
  register_at status player_id stream_id none st = (none, st)
  register_at status player_id stream_id (some info) st =
      let (frames, st') = register_found status player_id stream_id info st in (some frames, st')

  -- The frames to send first, or none when the player has left. The worker of the connection is left out.
  unfoldable pub register_stream :
      DispatchStatus → ℕ → ℕ → State → Option (Option (List W3gsFrame)) × State
  unfolding register_at
  register_stream status player_id stream_id st =
      if has_key player_id st.left_players
      then (none, st)
      else register_at status player_id stream_id (get player_id st.shared.map) st
