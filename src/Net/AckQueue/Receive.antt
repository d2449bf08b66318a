-- ===== src/Net/AckQueue/Receive.antt =====
-- crates/net/src/w3gs.rs: which packets `ack_received` lets through. The packets are counted from 0 here,
-- and the n-th has the number `n % 2 ^ 32`.
use w3c_flo.Common.{
  ℕ, ◌+◌, ◌%◌, ◌/◌, ◌^◌, ◌≤◌, ◌<◌, ◌≡◌, refl, ap, true, false, some, ltb, if◌then◌else◌, arith,
  ltb→lt, inl, inr, Bool-cases, List, [], ◌∷◌, map, Every,
}
use w3c_flo.Net.AckQueue.{W3gsAckQueue, should_discard, ack_received}

should_discard_new :
    (m n : ℕ) → m < n → n < m + 2 ^ 31 → should_discard (n % 2 ^ 32) (some (m % 2 ^ 32)) ≡ false
unfolding should_discard
should_discard_new m n l w = ground arith

should_discard_old :
    (m n : ℕ)
    → n ≤ m
    → m ≤ n + 2 ^ 31
    → m / 2 ^ 32 ≡ n / 2 ^ 32
    → should_discard (n % 2 ^ 32) (some (m % 2 ^ 32)) ≡ true
unfolding should_discard
should_discard_old m n l w e = ground arith

-- The packets that are newer than all before them, where `m` is the newest so far.
unfoldable pub newest : ℕ → List ℕ → List ℕ
newest m [] = []
newest m (n ∷ ns) =
    let rest = newest m ns in let next = newest n ns in if ltb m n then n ∷ next else rest

abbrev pub numbers : List ℕ → List ℕ
numbers ns = map (λ n. n % 2 ^ 32) ns

-- From `base` on, less than half of the numbers.
abbrev pub InWindow : ℕ → ℕ → Type 0
InWindow base n = (base ≤ n) × (n < base + 2 ^ 31)

-- No packet from before a wrap of the numbers comes after one from behind it.
abbrev pub WrapsInOrder : ℕ → List ℕ → Type 0
WrapsInOrder m [] = Unit {0}
WrapsInOrder m (n ∷ ns) = (m / 2 ^ 32 ≤ n / 2 ^ 32) × WrapsInOrder n ns

WrapsInOrder-older :
    (m n : ℕ) (ns : List ℕ) → m / 2 ^ 32 ≤ n / 2 ^ 32 → WrapsInOrder n ns → WrapsInOrder m ns
WrapsInOrder-older m n [] l w = tt
WrapsInOrder-older m n (k ∷ ns) l w = (omega (arith, w.0), w.1)

module _ {PacketType Packet : Type 0} where
  -- The numbers that are let through when packets with these numbers arrive one after the other.
  unfoldable pub receive_all : List ℕ → W3gsAckQueue PacketType Packet → List ℕ
  receive_all [] q = []
  receive_all (sid ∷ sids) q =
      let (handled, q') = ack_received sid q in
      let rest = receive_all sids q' in if handled then sid ∷ rest else rest

  ack_received-true :
      (sid : ℕ) (q : W3gsAckQueue PacketType Packet)
      → should_discard sid q.last_rx_ack_sid ≡ false
      → ack_received sid q ≡ (true, record q { rx_ack_sid = some sid; last_rx_ack_sid = some sid })
  unfolding ack_received
  ack_received-true sid q h = rw (ack_received, h) refl

  ack_received-false :
      (sid : ℕ) (q : W3gsAckQueue PacketType Packet)
      → should_discard sid q.last_rx_ack_sid ≡ true
      → ack_received sid q ≡ (false, q)
  unfolding ack_received
  ack_received-false sid q h = rw (ack_received, h) refl

  -- Packets from less than half of the numbers, which may wrap, that arrive in any order and with
  -- repetitions are let through exactly when they are newer than all before them, if no packet from
  -- before a wrap comes after one from behind it.
  pub receive_all-newest :
      (base m : ℕ) (ns : List ℕ) (q : W3gsAckQueue PacketType Packet)
      → q.last_rx_ack_sid ≡ some (m % 2 ^ 32)
      → InWindow base m
      → Every (InWindow base) ns
      → WrapsInOrder m ns
      → receive_all (numbers ns) q ≡ numbers (newest m ns)
  unfolding receive_all newest
  receive_all-newest base m [] q e h s w = refl
  receive_all-newest base m (n ∷ ns) q e h s w = elim (Bool-cases (ltb m n)) [
    | inl new ↦
        rw
          (
            ack_received-true (n % 2 ^ 32) q
                (rw e (should_discard_new m n (ltb→lt m n new) (omega (arith, s.0.1, h.0)))),
            new,
          )
          (ap (λ xs. n % 2 ^ 32 ∷ xs) (receive_all-newest base n ns _ refl s.0 s.1 w.1))
    | inr old ↦
        rw
          (
            ack_received-false (n % 2 ^ 32) q (
                rw e (
                  should_discard_old m n (ground (arith, old)) (omega (arith, s.0.0, h.1))
                    (ground (arith, old, w.0)))),
            old,
          )
          (receive_all-newest base m ns q e h s.1
            (WrapsInOrder-older m n ns (ground (arith, old, w.0)) w.1))
  ]
