-- ===== src/Net/AckQueue/Send.antt =====
-- crates/net/src/w3gs.rs: the packets that wait for their acknowledgement. They are counted from 0 here,
-- and the n-th has the number `n % 2 ^ 32`.
use w3c_flo.Common.{
  ℕ, zero, suc, ◌+◌, ◌-◌, ◌%◌, ◌^◌, ◌≤◌, ◌<◌, ◌≡◌, refl, sym, List, [], ◌∷◌, ◌++◌, ◌==◌, arith,
  subst, ℕ_discrete, if_cases, ==_iff,
}
use w3c_flo.Net.AckQueue.{
  W3gsMetadata, W3gsAckQueue, new, gen_next_send_sid, push_send, pop_acked, ack_sent,
}

module _ {PacketType Packet : Type 0} where
  -- The list holds the `count` packets after the first `low` ones, in order.
  abbrev pub Holds : List (W3gsMetadata PacketType × Packet) → ℕ → ℕ → Type 0
  Holds [] low zero = Unit {0}
  Holds [] low (suc count) = ⊥
  Holds ((meta, _) ∷ pending) low zero = ⊥
  Holds ((meta, _) ∷ pending) low (suc count) =
      (meta.sid ≡ suc low % 2 ^ 32) × Holds pending (suc low) count

  -- `low` packets have been acknowledged, and the `count` sent after them have not.
  abbrev pub Waits : W3gsAckQueue PacketType Packet → ℕ → ℕ → Type 0
  Waits q low count = Holds q.tx_pending_ack_q low count × (q.tx_next_sid ≡ (low + count) % 2 ^ 32)

  Holds-snoc :
      (pending : List (W3gsMetadata PacketType × Packet)) (low count : ℕ)
      (meta : W3gsMetadata PacketType) (packet : Packet)
      → Holds pending low count
      → meta.sid ≡ suc (low + count) % 2 ^ 32
      → Holds (pending ++ ((meta, packet) ∷ [])) low (suc count)
  Holds-snoc [] low zero meta packet h e = (ground (arith, e), tt)
  Holds-snoc [] low (suc count) meta packet h e = absurd h
  Holds-snoc (p ∷ pending) low zero meta packet h e = absurd h
  Holds-snoc (p ∷ pending) low (suc count) meta packet h e =
      (h.0, Holds-snoc pending (suc low) count meta packet h.1 (ground (arith, e)))

  -- Taking off up to the k-th packet.
  pop_acked-Holds :
      (k low count : ℕ) (pending : List (W3gsMetadata PacketType × Packet))
      → low < k
      → k ≤ low + count
      → count < 2 ^ 32
      → Holds pending low count
      → Holds (pop_acked (k % 2 ^ 32) pending) k (low + count - k)
  unfolding pop_acked
  pop_acked-Holds k low zero [] a b l h = absurd (omega arith)
  pop_acked-Holds k low (suc count) [] a b l h = absurd h
  pop_acked-Holds k low zero (p ∷ pending) a b l h = absurd h
  pop_acked-Holds k low (suc count) ((meta, packet) ∷ pending) a b l h =
      elim (ℕ_discrete k (suc low)) [
        | yes e ↦
            if_cases (λ xs. Holds xs k (low + suc count - k)) (meta.sid == k % 2 ^ 32) _ _
              (λ _.
                subst (λ x. Holds pending x (low + suc count - k)) (sym e)
                  (subst (λ y. Holds pending (suc low) y) (omega arith) h.1))
              (λ ne. absurd (ground (arith, ne, h.0, e)))
        | no other ↦
            if_cases (λ xs. Holds xs k (low + suc count - k)) (meta.sid == k % 2 ^ 32) _ _
              (λ same. absurd (other (omega (arith, h.0, (==_iff meta.sid (k % 2 ^ 32)).0 same))))
              (λ _.
                subst (λ y. Holds (pop_acked (k % 2 ^ 32) pending) k y) (omega arith)
                  (pop_acked-Holds k (suc low) count pending (omega arith) (omega arith)
                    (omega arith) h.1))
      ]

  -- When fewer than 2 ^ 32 packets wait, the acknowledgement of one of them takes that one and those sent
  -- before it off, and no other.
  pub ack_sent-Waits :
      (k low count : ℕ) (q : W3gsAckQueue PacketType Packet)
      → low < k
      → k ≤ low + count
      → count < 2 ^ 32
      → Waits q low count
      → Waits (ack_sent (k % 2 ^ 32) q) k (low + count - k)
  unfolding ack_sent
  ack_sent-Waits k low count q a b l (h, e) =
      (pop_acked-Holds k low count q.tx_pending_ack_q a b l h, omega (arith, e))

  -- A further packet with the next number.
  pub push_send-Waits :
      (low count : ℕ) (q : W3gsAckQueue PacketType Packet) (meta : W3gsMetadata PacketType)
      (packet : Packet)
      → Waits q low count
      → meta.sid ≡ (gen_next_send_sid q).0
      → Waits (push_send meta packet (gen_next_send_sid q).1) low (suc count)
  unfolding gen_next_send_sid push_send
  push_send-Waits low count q meta packet (h, e) s = (
    Holds-snoc q.tx_pending_ack_q low count meta packet h (omega (arith, s, e)),
    omega (arith, e),
  )

-- The queue of a new connection.
pub new-Waits :
    (PacketType Packet : Type 0) → Waits {PacketType = PacketType} {Packet = Packet} new 0 0
unfolding new
new-Waits PacketType Packet = (tt, refl)
