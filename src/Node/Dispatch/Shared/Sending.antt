-- ===== src/Node/Dispatch/Shared/Sending.antt =====
-- crates/node/src/game/host/dispatch.rs: sending a packet ends when the removal of players does.
use w3c_flo.Common.{ℕ, ◌≤◌, refl, List, [], ◌∷◌, length, arith, inl, inr}
use w3c_flo.Common.Maps.Keys.{Within-length, SameKeys-length}
use w3c_flo.Node.Player.{
  PlayerSendError, not_connected, channel_closed, channel_full, ack_queue_full,
}
use w3c_flo.Node.Dispatch.Packets.{Packet, BroadcastTarget}
use w3c_flo.Node.Dispatch.Shared.{
  Host, Run, Sh, send_all, with_sent, handle_errors_with, broadcast_with,
}
use w3c_flo.Node.Dispatch.Shared.Players.{
  send_all-SameKeys, IsSound, Removes, EndsWith, Removes-same, Removes-trans, SameKeys-refl,
}

module _ (H : Host) (now : ℕ) where
  pub Removes-length :
      (s s' : Sh H now) → IsSound H now s → Removes H now s s' → length s'.map ≤ length s.map
  Removes-length s s' v r =
      elim (Within-length 0 0 s'.map s.map r.leaves.sound.map_sorted v.map_sorted r.leaves.within) [
        | inl less ↦ omega arith
        | inr (same, _) ↦ omega arith
      ]

  -- Removing ends in states of at most `n` players.
  abbrev pub EndsBelow : ℕ → (ℕ → Sh H now → Run (Sh H now)) → Type 0
  EndsBelow n f =
      (id : ℕ) (s : Sh H now)
      → IsSound H now s
      → length s.map ≤ n
      → EndsWith H now (Removes H now s) (f id s)

  module _ (n : ℕ) (f : ℕ → Sh H now → Run (Sh H now)) (ends : EndsBelow n f) where
    pub handle_errors_with-Removes :
        (errors : List (ℕ × PlayerSendError)) (s : Sh H now)
        → IsSound H now s
        → length s.map ≤ n
        → EndsWith H now (Removes H now s) (handle_errors_with H now f errors s)
    unfolding handle_errors_with
    handle_errors_with-Removes [] s v l = (
      s,
      refl,
      Removes-same H now s s v (SameKeys-refl H now s.map) refl refl refl refl refl refl,
    )
    handle_errors_with-Removes ((id, not_connected) ∷ errors) s v l =
        handle_errors_with-Removes errors s v l
    handle_errors_with-Removes ((id, channel_closed) ∷ errors) s v l =
        handle_errors_with-Removes errors s v l
    handle_errors_with-Removes ((id, channel_full) ∷ errors) s v l =
        handle_errors_with-Removes errors s v l
    handle_errors_with-Removes ((id, ack_queue_full) ∷ errors) s v l =
        let (s', e, r) = ends id s v l in
        let (s'', e', r') =
          handle_errors_with-Removes errors s' r.leaves.sound
            (omega (arith, Removes-length s s' v r, l)) in
        (s'', rw e e', Removes-trans H now s s' s'' r r')

    pub broadcast_with-Removes :
        (packet : Packet) (target : BroadcastTarget) (s : Sh H now)
        → IsSound H now s
        → length s.map ≤ n
        → EndsWith H now (Removes H now s) (broadcast_with H now f packet target s)
    unfolding broadcast_with
    broadcast_with-Removes packet target s v l =
        let all = send_all H now target packet s.map in
        let keys = send_all-SameKeys H now target packet s.map in
        let sent =
          Removes-same H now s (with_sent H now all s) v keys refl refl refl refl refl refl in
        let (s', e, r) =
          handle_errors_with-Removes all.errors (with_sent H now all s) sent.leaves.sound
            (omega (arith, SameKeys-length s.map all.entries keys, l)) in
        (s', e, Removes-trans H now s (with_sent H now all s) s' sent r)
