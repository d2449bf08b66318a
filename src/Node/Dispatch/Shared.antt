-- ===== src/Node/Dispatch/Shared.antt =====
-- crates/node/src/game/host/dispatch.rs: the state that the dispatcher and the tick task share, and the
-- sending of packets to its players, which may remove players. `now` is the instant of the call.
pub mod Players
pub mod Sending
pub mod Removed
pub mod New
pub mod Queues
pub mod Delivery
use w3c_flo.Common.{
  ℕ, zero, suc, Bool, true, false, Option, none, some, List, [], ◌∷◌, ◌++◌, leb, if◌then◌else◌,
  length, Outcome, done, panic,
}
use mathlib.Core.Option
use w3c_flo.Common.Maps.{SortedMap, SortedSet, get, has_key, insert, remove}
use w3c_flo.Net.AckQueue.{pending_ack_len}
use w3c_flo.Node.Player.{
  TrySend, PlayerSendError, not_connected, channel_closed, channel_full, ack_queue_full,
  close_stream, enqueue_w3gs, send_w3gs, remove_lag_slot, send_private_message,
}
use w3c_flo.Node.Sync.{SyncMap, Pending}
use w3c_flo.Node.Sync.Remove.{remove_player}
use w3c_flo.Node.Sync.Slab.{SlabOps}
use w3c_flo.Node.Dispatch.Packets.{
  LeaveReason, Packet, Message, chat_from_host, player_left, packet_type_id, ObserverEvent,
  push_w3gs, BroadcastTarget, deny_list, target_contains, unwrap_reason, PlayerInfo, W3gsFrame,
}

-- `stuck`, which the code has not, is a recursion that ran out of fuel.
pub data Run {ℓ} (A : Type ℓ) : Type ℓ where
  finished : A → Run A
  panicked : Run A
  stuck : Run A

infixl 5 ◌>>=◌
abbrev pub ◌>>=◌ {ℓ κ} : {A : Type ℓ} {B : Type κ} → Run A → (A → Run B) → Run B
finished a >>= f = f a
panicked >>= f = panicked
stuck >>= f = stuck

abbrev pub run {ℓ} : {A : Type ℓ} → Outcome A → Run A
run (done a) = finished a
run panic = panicked

-- `closed_streams` are the streams whose handles have been closed, in order.
pub record Shared (Slab Equalizer : Type 0) : Type 0 where
  pub started : Bool
  pub map : SortedMap PlayerInfo
  pub slot_id_lookup : SortedMap ℕ
  pub sync : SyncMap Slab
  pub lagging_player_ids : SortedSet
  pub drop_votes : SortedSet
  pub obs : List ObserverEvent
  pub active_players : SortedSet
  pub delay_equalizer : Option Equalizer
  pub closed_streams : List ℕ

-- `crate::constants::GAME_PLAYER_MAX_ACK_QUEUE`.
abbrev pub game_player_max_ack_queue : ℕ
game_player_max_ack_queue = 300

-- An entry of the map after a packet has been sent to it.
pub record Sent : Type 0 where
  pub info : PlayerInfo
  pub error : Option PlayerSendError
  pub closed : List ℕ

-- The whole map after a packet has been broadcast.
pub record SentAll : Type 0 where
  pub entries : SortedMap PlayerInfo
  pub errors : List (ℕ × PlayerSendError)
  pub closed : List ℕ

abbrev pub closed_list : Option ℕ → List ℕ
closed_list none = []
closed_list (some stream) = stream ∷ []

abbrev pub error_list : ℕ → Option PlayerSendError → List (ℕ × PlayerSendError)
error_list player_id none = []
error_list player_id (some error) = (player_id, error) ∷ []

-- What the code takes from elsewhere in the program: the slab, the equalizer of the delays, and the channel
-- of a stream.
pub record Host : Type 1 where
  pub slab_ops : SlabOps Pending
  pub Equalizer : Type 0
  pub remove_from_equalizer : ℕ → Equalizer → Equalizer
  pub try_send : ℕ → W3gsFrame → TrySend

module _ (H : Host) (now : ℕ) where
  open H use {slab_ops, Equalizer, remove_from_equalizer, try_send}

  abbrev pub Sh : Type 0
  Sh = Shared slab_ops.Slab Equalizer

  unfoldable pub close_entry : PlayerInfo → PlayerSendError → Sent
  close_entry info error =
      let (stream, info') = close_stream now info in
      record { info = info'; error = some error; closed = closed_list stream }

  -- Sending or queueing.
  unfoldable pub send_or_enqueue : Packet → PlayerInfo → Sent
  unfolding close_entry
  send_or_enqueue packet info = elim info.tx [
    | none ↦ record {
      info = (enqueue_w3gs (packet_type_id packet) packet info).1;
      error = none;
      closed = [];
    }
    | some stream ↦
        let (error, info') = send_w3gs try_send (packet_type_id packet) packet info in
        elim error [
          | none ↦ record { info = info'; error = none; closed = [] }
          | some e ↦ close_entry info' e
        ]
  ]

  -- A queue that is too long is the error that counts.
  unfoldable pub check_queue : Sent → Sent
  check_queue sent =
      if leb game_player_max_ack_queue (pending_ack_len sent.info.w3gs_ack_q)
      then record sent { error = some ack_queue_full }
      else sent

  unfoldable pub send_entry : BroadcastTarget → Packet → ℕ → PlayerInfo → Sent
  unfolding send_or_enqueue check_queue
  send_entry target packet player_id info =
      if target_contains target player_id
      then check_queue (send_or_enqueue packet info)
      else record { info = info; error = none; closed = [] }

  unfoldable pub send_all : BroadcastTarget → Packet → SortedMap PlayerInfo → SentAll
  unfolding send_entry
  send_all target packet [] = record { entries = []; errors = []; closed = [] }
  send_all target packet ((player_id, info) ∷ m) =
      let sent = send_entry target packet player_id info in
      let rest = send_all target packet m in
      record {
        entries = (player_id, sent.info) ∷ rest.entries;
        errors = error_list player_id sent.error ++ rest.errors;
        closed = sent.closed ++ rest.closed;
      }

  -- `handle_player_send_errors`, given `remove_player_and_broadcast`.
  unfoldable pub handle_errors_with : (ℕ → Sh → Run Sh) → List (ℕ × PlayerSendError) → Sh → Run Sh
  handle_errors_with remove_with [] s = finished s
  handle_errors_with remove_with ((player_id, ack_queue_full) ∷ errors) s = do
    s' ← remove_with player_id s
    handle_errors_with remove_with errors s'
  handle_errors_with remove_with ((player_id, not_connected) ∷ errors) s =
      handle_errors_with remove_with errors s
  handle_errors_with remove_with ((player_id, channel_closed) ∷ errors) s =
      handle_errors_with remove_with errors s
  handle_errors_with remove_with ((player_id, channel_full) ∷ errors) s =
      handle_errors_with remove_with errors s

  abbrev pub with_sent : SentAll → Sh → Sh
  with_sent all s = record s { map = all.entries; closed_streams = s.closed_streams ++ all.closed }

  unfoldable pub broadcast_with : (ℕ → Sh → Run Sh) → Packet → BroadcastTarget → Sh → Run Sh
  unfolding send_all handle_errors_with
  broadcast_with remove_with packet target s =
      let all = send_all target packet s.map in
      handle_errors_with remove_with all.errors (with_sent all s)

  -- `p.remove_lag_slot(slot)` for all players.
  unfoldable pub remove_lag_slots : ℕ → SortedMap PlayerInfo → SortedMap PlayerInfo
  remove_lag_slots slot [] = []
  remove_lag_slots slot ((id, info) ∷ m) =
      (id, (remove_lag_slot slot info).1) ∷ remove_lag_slots slot m

  unfoldable pub forget_delay : ℕ → Sh → Sh
  forget_delay player_id s = record s {
    delay_equalizer = Option.map (remove_from_equalizer player_id) s.delay_equalizer;
  }

  -- The player is off the map, and the others are not told yet.
  unfoldable pub take_off : ℕ → PlayerInfo → Packet → Sh → Sh
  unfolding remove_lag_slots
  take_off player_id player packet s = record s {
    map = remove_lag_slots player.slot_player_id (remove player_id s.map);
    obs = s.obs ++ (push_w3gs packet ∷ []);
  }

  -- The end of the removal, once the others have been told.
  unfoldable pub finish_removal : ℕ → PlayerInfo → Sh → Run Sh
  finish_removal player_id player s = do
    (sync, desync) ← run (remove_player slab_ops s.sync player_id)
    finished (record s { sync = sync; closed_streams = s.closed_streams ++ closed_list player.tx })

  -- Telling the others may remove some of them. Each call takes a player off the map, so that fuel as
  -- large as the map is enough.
  unfoldable pub remove_on : ℕ → ℕ → Option LeaveReason → Sh → Run Sh
  unfolding forget_delay take_off finish_removal broadcast_with
  remove_on zero player_id reason s = elim (get player_id s.map) [
    | none ↦ finished (forget_delay player_id s)
    | some player ↦ stuck
  ]
  remove_on (suc fuel) player_id reason s = elim (get player_id s.map) [
    | none ↦ finished (forget_delay player_id s)
    | some player ↦ (do
      s' ←
          broadcast_with (λ id. remove_on fuel id none)
            (player_left player.slot_player_id (unwrap_reason reason)) (deny_list (player_id ∷ []))
            (take_off player_id player (player_left player.slot_player_id (unwrap_reason reason))
              (forget_delay player_id s))
      finish_removal player_id player s')
  ]

  unfoldable pub remove_player_and_broadcast : ℕ → Option LeaveReason → Sh → Run Sh
  unfolding remove_on
  remove_player_and_broadcast player_id reason s = remove_on (length s.map) player_id reason s

  unfoldable pub handle_player_send_errors : List (ℕ × PlayerSendError) → Sh → Run Sh
  unfolding handle_errors_with
  handle_player_send_errors = handle_errors_with (λ id. remove_player_and_broadcast id none)

  unfoldable pub broadcast : Packet → BroadcastTarget → Sh → Run Sh
  unfolding broadcast_with
  broadcast = broadcast_with (λ id. remove_player_and_broadcast id none)

  -- `broadcast_message`, for the entries of the map.
  unfoldable pub message_all : Message → SortedMap PlayerInfo → SortedMap PlayerInfo
  message_all message [] = []
  message_all message ((id, info) ∷ m) =
      let packet = chat_from_host info.slot_player_id message in
      (id, send_private_message try_send (packet_type_id packet) packet info)
      ∷ message_all message m

  unfoldable pub broadcast_message : Message → Sh → Sh
  unfolding message_all
  broadcast_message message s = record s { map = message_all message s.map }
