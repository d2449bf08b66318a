-- ===== src/Node/Player.antt =====
-- crates/node/src/game/host/player.rs: the connection of a player with the game, the packets sent over it
-- and the time that the player has lagged. The name, the bans, the artificial delay and the statistics
-- of the round trips are left out. An instant is a number of milliseconds, and `now` that of the call.
pub mod Packets
use w3c_flo.Common.{
  ℕ, ◌+◌, ◌-◌, ◌%◌, ◌^◌, min, Bool, true, false, Option, none, some, List, [], ◌∷◌, if◌then◌else◌,
  map, ◌==◌,
}
use w3c_flo.Common.Maps.{SortedSet, extend, has_key, remove}
use w3c_flo.Net.AckQueue.{
  W3gsMetadata, W3gsAckQueue, new_metadata, gen_next_send_sid, push_send, ack_sent, ack_received,
  take_ack_received, saturating_add, new,
}

pub record PlayerDispatchInfo (PacketType Packet : Type 0) : Type 0 where
  pub last_stream_id : Option ℕ
  pub tx : Option ℕ
  pub slot_player_id : ℕ
  pub w3gs_ack_q : W3gsAckQueue PacketType Packet
  pub lag_duration_ms : ℕ
  pub lag_start : Option ℕ
  pub lag_slot_ids : SortedSet
  pub last_disconnect : Option ℕ
  pub is_observer : Bool

-- What the channel of a stream does with a frame.
pub data TrySend : Type 0 where
  sent closed full : TrySend

pub data PlayerSendError : Type 0 where
  not_connected channel_closed channel_full ack_queue_full : PlayerSendError

-- The frame of a packet. Its type id is always that of such frames, and the packet's type is in the
-- metadata.
pub record Frame (PacketType Packet : Type 0) : Type 0 where
  pub metadata : W3gsMetadata PacketType
  pub payload : Packet

-- `Frame::from_w3gs`, for an entry of the queue.
unfoldable pub from_w3gs :
    {PacketType Packet : Type 0} → W3gsMetadata PacketType × Packet → Frame PacketType Packet
from_w3gs (meta, packet) = record { metadata = meta; payload = packet }

abbrev pub Info : Type 0 → Type 0 → Type 0
Info PacketType Packet = PlayerDispatchInfo PacketType Packet

module _ {PacketType Packet : Type 0} where
  unfoldable pub update_ack :
      W3gsMetadata PacketType → Info PacketType Packet → Bool × Info PacketType Packet
  update_ack meta p =
      let (handled, q) = ack_received meta.sid p.w3gs_ack_q in
      let acked : W3gsAckQueue PacketType Packet = elim meta.ack_sid [
        | none ↦ q
        | some ack ↦ ack_sent ack q
      ] in
      if handled
      then (true, record p { w3gs_ack_q = acked })
      else (false, record p { w3gs_ack_q = q })

  -- The stream is the one that the player's id is sent with.
  unfoldable pub register_sender : ℕ → Info PacketType Packet → Info PacketType Packet
  register_sender stream p = record p { last_stream_id = some stream; tx = some stream }

  unfoldable pub take_stream : Info PacketType Packet → Option ℕ × Info PacketType Packet
  take_stream p = (p.tx, record p { tx = none })

  -- Closing the stream itself is the caller's.
  unfoldable pub close_stream : ℕ → Info PacketType Packet → Option ℕ × Info PacketType Packet
  close_stream now p = elim p.tx [
    | none ↦ (none, p)
    | some stream ↦ (some stream, record p { tx = none; last_disconnect = some now })
  ]

  unfoldable pub enqueue_w3gs :
      PacketType
      → Packet
      → Info PacketType Packet
      → W3gsMetadata PacketType × Info PacketType Packet
  enqueue_w3gs type_id packet p =
      let (sid, q) = gen_next_send_sid p.w3gs_ack_q in
      let (ack_sid, q') = take_ack_received q in
      let meta = new_metadata type_id sid ack_sid in
      (meta, record p { w3gs_ack_q = push_send meta packet q' })

  unfoldable pub send :
      (ℕ → Frame PacketType Packet → TrySend)
      → Frame PacketType Packet
      → Info PacketType Packet
      → Option PlayerSendError
  send try_send frame p = elim p.tx [
    | none ↦ some not_connected
    | some stream ↦ elim (try_send stream frame) [
      | sent ↦ none
      | closed ↦ some channel_closed
      | full ↦ some channel_full
    ]
  ]

  unfoldable pub send_w3gs :
      (ℕ → Frame PacketType Packet → TrySend)
      → PacketType
      → Packet
      → Info PacketType Packet
      → Option PlayerSendError × Info PacketType Packet
  unfolding enqueue_w3gs send
  send_w3gs try_send type_id packet p =
      let (meta, p') = enqueue_w3gs type_id packet p in
      (send try_send (from_w3gs (meta, packet)) p', p')

  unfoldable pub get_resend_frames :
      Info PacketType Packet → Option (List (Frame PacketType Packet))
  get_resend_frames p = elim p.w3gs_ack_q.tx_pending_ack_q [
    | [] ↦ none
    | f ∷ fs ↦ some (map from_w3gs (f ∷ fs))
  ]

  unfoldable pub start_lag : ℕ → Info PacketType Packet → ℕ × Info PacketType Packet
  start_lag now p =
      let ms : ℕ = elim p.lag_start [
        | none ↦ p.lag_duration_ms
        | some start ↦ saturating_add p.lag_duration_ms ((now - start) % 2 ^ 32)
      ] in
      (ms, record p { lag_duration_ms = ms; lag_start = some now })

  unfoldable pub end_lag : ℕ → Info PacketType Packet → ℕ × Info PacketType Packet
  end_lag now p =
      let ms : ℕ = elim p.lag_start [
        | none ↦ p.lag_duration_ms
        | some start ↦ saturating_add p.lag_duration_ms (min 500 ((now - start) % 2 ^ 32))
      ] in
      (ms, record p { lag_duration_ms = ms; lag_start = none })

  unfoldable pub update_lag_ms_after_reconnect : ℕ → Info PacketType Packet → Info PacketType Packet
  update_lag_ms_after_reconnect now p = elim p.last_disconnect [
    | none ↦ p
    | some inst ↦ record p {
      lag_duration_ms = saturating_add p.lag_duration_ms (min 1000 (now - inst));
    }
  ]

  -- The id of a slot is its index, and 24 the team of the observers.
  unfoldable pub new_info : ℕ → ℕ → Info PacketType Packet
  new_info id team = record {
    last_stream_id = none;
    tx = none;
    slot_player_id = (id + 1) % 2 ^ 8;
    w3gs_ack_q = new;
    lag_duration_ms = 0;
    lag_start = none;
    lag_slot_ids = [];
    last_disconnect = none;
    is_observer = team == 24;
  }

  unfoldable pub set_last_disconnect : ℕ → Info PacketType Packet → Info PacketType Packet
  set_last_disconnect now p = record p { last_disconnect = some now }

  unfoldable pub set_lag_slots : List ℕ → Info PacketType Packet → Info PacketType Packet
  unfolding extend
  set_lag_slots ids p = record p { lag_slot_ids = extend ids [] }

  unfoldable pub remove_lag_slot : ℕ → Info PacketType Packet → Bool × Info PacketType Packet
  remove_lag_slot slot_id p =
      (has_key slot_id p.lag_slot_ids, record p { lag_slot_ids = remove slot_id p.lag_slot_ids })

  unfoldable pub pristine : Info PacketType Packet → Bool
  pristine p = elim p.last_stream_id [ none ↦ true | some stream ↦ false ]

  -- A message is a packet of its own; a failure to send it is passed over.
  unfoldable pub send_private_message :
      (ℕ → Frame PacketType Packet → TrySend)
      → PacketType
      → Packet
      → Info PacketType Packet
      → Info PacketType Packet
  unfolding send_w3gs
  send_private_message try_send type_id message p = elim p.tx [
    | none ↦ p
    | some stream ↦ (send_w3gs try_send type_id message p).1
  ]
