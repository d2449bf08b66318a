-- ===== src/Node/Player/Packets.antt =====
-- crates/node/src/game/host/player.rs: a packet that is sent joins those that wait for an acknowledgement.
use w3c_flo.Common.{ℕ, suc, ◌≡◌, refl, Option, none, some}
use w3c_flo.Net.AckQueue.{gen_next_send_sid, push_send, take_ack_received, new_metadata}
use w3c_flo.Net.AckQueue.Send.{Waits, push_send-Waits}
use w3c_flo.Node.Player.{PlayerDispatchInfo, TrySend, Frame, enqueue_w3gs, send_w3gs}

new_metadata-sid :
    {PacketType : Type 0} (type_id : PacketType) (sid : ℕ) (ack : Option ℕ)
    → (new_metadata type_id sid ack).sid ≡ sid
unfolding new_metadata
new_metadata-sid type_id sid none = refl
new_metadata-sid type_id sid (some a) = refl

module _ {PacketType Packet : Type 0} where
  -- The packets that a player has not acknowledged are the ones after the first `low`, `count` of them.
  abbrev pub Unacknowledged : PlayerDispatchInfo PacketType Packet → ℕ → ℕ → Type 0
  Unacknowledged p low count = Waits p.w3gs_ack_q low count

  -- Whatever the channel does with the frame, even when there is no stream, a packet sent is one that
  -- waits for its acknowledgement, after those that waited before.
  pub send_w3gs-Unacknowledged :
      (try_send : ℕ → Frame PacketType Packet → TrySend) (type_id : PacketType) (packet : Packet)
      (p : PlayerDispatchInfo PacketType Packet) (low count : ℕ)
      → Unacknowledged p low count
      → Unacknowledged (send_w3gs try_send type_id packet p).1 low (suc count)
  unfolding send_w3gs enqueue_w3gs take_ack_received gen_next_send_sid push_send
  send_w3gs-Unacknowledged try_send type_id packet p low count h =
      push_send-Waits low count (record (p.w3gs_ack_q) { rx_ack_sid = none })
        (new_metadata type_id (gen_next_send_sid p.w3gs_ack_q).0 p.w3gs_ack_q.rx_ack_sid) packet h
        (new_metadata-sid type_id (gen_next_send_sid p.w3gs_ack_q).0 p.w3gs_ack_q.rx_ack_sid)
