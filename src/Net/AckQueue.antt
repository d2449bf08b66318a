-- ===== src/Net/AckQueue.antt =====
-- crates/net/src/w3gs.rs: the packets that the other side has not acknowledged, and the number of the
-- last packet received. A u32 is a number below 2 ^ 32; a packet is any value with a type.
pub mod Receive
pub mod Send
use w3c_flo.Common.{
  ℕ, ◌+◌, ◌-◌, ◌%◌, ◌/◌, ◌^◌, min, Bool, true, false, ◌&&◌, Option, none, some, List, [], ◌∷◌, ◌++◌,
  ◌==◌, ltb, if◌then◌else◌, length,
}

-- `WINDOW_SIZE`.
abbrev pub window_size : ℕ
window_size = (2 ^ 32 - 1) / 2

abbrev pub saturating_add : ℕ → ℕ → ℕ
saturating_add a b = min (2 ^ 32 - 1) (a + b)

unfoldable pub should_discard : ℕ → Option ℕ → Bool
should_discard sid none = false
should_discard sid (some last) =
    if ltb sid last && ltb (saturating_add (2 ^ 32 - 1 - last) sid) window_size
    then false
    else if ltb last sid
    then false
    else true

-- `flags` tells whether the bit ACK is set.
pub record W3gsMetadata (PacketType : Type 0) : Type 0 where
  pub flags : Bool
  pub type_id : PacketType
  pub sid : ℕ
  pub ack_sid : Option ℕ

pub record W3gsAckQueue (PacketType Packet : Type 0) : Type 0 where
  pub tx_next_sid : ℕ
  pub tx_ack_sid : Option ℕ
  pub tx_pending_ack_q : List (W3gsMetadata PacketType × Packet)
  pub rx_ack_sid : Option ℕ
  pub last_rx_ack_sid : Option ℕ

unfoldable pub new_metadata :
    {PacketType : Type 0} → PacketType → ℕ → Option ℕ → W3gsMetadata PacketType
new_metadata type_id sid none = record {
  flags = false;
  type_id = type_id;
  sid = sid;
  ack_sid = none;
}
new_metadata type_id sid (some ack) = record {
  flags = true;
  type_id = type_id;
  sid = sid;
  ack_sid = some ack;
}

module _ {PacketType Packet : Type 0} where
  unfoldable pub new : W3gsAckQueue PacketType Packet
  new = record {
    tx_next_sid = 0;
    tx_ack_sid = none;
    tx_pending_ack_q = [];
    rx_ack_sid = none;
    last_rx_ack_sid = none;
  }

  -- The number is returned, and kept.
  unfoldable pub gen_next_send_sid :
      W3gsAckQueue PacketType Packet → ℕ × W3gsAckQueue PacketType Packet
  gen_next_send_sid q =
      let sid = (q.tx_next_sid + 1) % 2 ^ 32 in (sid, record q { tx_next_sid = sid })

  unfoldable pub push_send :
      W3gsMetadata PacketType
      → Packet
      → W3gsAckQueue PacketType Packet
      → W3gsAckQueue PacketType Packet
  push_send meta packet q = record q {
    tx_pending_ack_q = q.tx_pending_ack_q ++ ((meta, packet) ∷ []);
  }

  -- The loop takes packets off up to the one acknowledged: all, if it is not there.
  unfoldable pub pop_acked :
      ℕ → List (W3gsMetadata PacketType × Packet) → List (W3gsMetadata PacketType × Packet)
  pop_acked ack [] = []
  pop_acked ack ((meta, _) ∷ pending) =
      let rest = pop_acked ack pending in if meta.sid == ack then pending else rest

  unfoldable pub ack_sent : ℕ → W3gsAckQueue PacketType Packet → W3gsAckQueue PacketType Packet
  unfolding pop_acked
  ack_sent ack q = record q {
    tx_ack_sid = some ack;
    tx_pending_ack_q = pop_acked ack q.tx_pending_ack_q;
  }

  -- Whether the packet is to be handled.
  unfoldable pub ack_received :
      ℕ → W3gsAckQueue PacketType Packet → Bool × W3gsAckQueue PacketType Packet
  unfolding should_discard
  ack_received sid q =
      if should_discard sid q.last_rx_ack_sid
      then (false, q)
      else (true, record q { rx_ack_sid = some sid; last_rx_ack_sid = some sid })

  unfoldable pub take_ack_received :
      W3gsAckQueue PacketType Packet → Option ℕ × W3gsAckQueue PacketType Packet
  take_ack_received q = (q.rx_ack_sid, record q { rx_ack_sid = none })

  abbrev pub pending_ack_len : W3gsAckQueue PacketType Packet → ℕ
  pending_ack_len q = length q.tx_pending_ack_q
