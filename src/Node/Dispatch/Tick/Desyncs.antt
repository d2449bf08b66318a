-- ===== src/Node/Dispatch/Tick/Desyncs.antt =====
-- crates/node/src/game/host/dispatch.rs: the players that a desync report names are removed.
use w3c_flo.Common.{
  ℕ, ◌≡◌, refl, ap, true, false, none, List, [], ◌∷◌, inl, inr, arith, Every, Every-map, Bool-cases,
}
use w3c_flo.Common.Maps.{SortedMap, has_key}
use w3c_flo.Node.Sync
use w3c_flo.Node.Sync.{is_reported}
use w3c_flo.Node.Sync.Desync.{PlayerDesync}
use w3c_flo.Node.Sync.Slab.{SlabLaws}
use w3c_flo.Node.Dispatch.Packets.{PlayerInfo, desync_detected}
use w3c_flo.Node.Dispatch.Shared.{Host, finished, Sh, broadcast_message}
use w3c_flo.Node.Dispatch.Shared.Players.{
  IsSound, Removes, Removes-same, Removes-trans, SameKeys-refl,
}
use w3c_flo.Node.Dispatch.Shared.Removed.{
  remove_player_and_broadcast-Removes, broadcast_message-Removes,
}
use w3c_flo.Node.Dispatch.Tick.{
  desync_targets, remove_desynced, handle_desync, AckAction, ack_continue, check_stop, desync_list,
}
use w3c_flo.Node.Dispatch.Tick.Targets.{Covers, desync_targets-Covers}

module _ (H : Host) (now : ℕ) (L : SlabLaws H.slab_ops) where
  remove_desynced-Removes :
      (ds : List PlayerDesync) (s : Sh H now)
      → IsSound H now s
      → (s' : Sh H now) × (remove_desynced H now ds s ≡ finished s')
        × Removes H now s s'
        × ((k : ℕ) → is_reported k ds ≡ true → has_key k s'.map ≡ false)
  unfolding remove_desynced is_reported
  remove_desynced-Removes [] s v = (
    s,
    refl,
    Removes-same H now s s v (SameKeys-refl H now s.map) refl refl refl refl refl refl,
    λ k e. cc e,
  )
  remove_desynced-Removes (d ∷ ds) s v =
      let message = desync_detected d.player_id d.time d.tick in
      let s1 = broadcast_message H now message s in
      let told = broadcast_message-Removes H now L message s v in
      let (s2, e2, (r2, off)) =
        remove_player_and_broadcast-Removes H now L d.player_id none s1 told.leaves.sound in
      let (s3, e3, r3, all) = remove_desynced-Removes ds s2 r2.leaves.sound in
      (
        s3,
        rw e2 e3,
        Removes-trans H now s s1 s3 told (Removes-trans H now s1 s2 s3 r2 r3),
        λ k h. elim (Bool-cases (is_reported k ds)) [
          | inl later ↦ all k later
          | inr not_later ↦ elim (Bool-cases (has_key k s3.map)) [
            | inl on ↦
                absurd (off_again k _ (ground (arith, h, not_later)) off (r3.leaves.within k on))
            | inr gone ↦ gone
          ]
        ],
      )
    where
      off_again :
          (k : ℕ) (m : SortedMap PlayerInfo)
          → d.player_id ≡ k
          → has_key d.player_id m ≡ false
          → has_key k m ≡ true
          → ⊥
      off_again k m q e f = cc (ap (λ j. has_key j m) q, e, f)

  -- In a sound state, handling a desync report ends, in a sound state, and no player that it names is on
  -- the map then. No action is broadcast.
  pub handle_desync-Removes :
      (ds : List PlayerDesync) (s : Sh H now)
      → IsSound H now s
      → (s' : Sh H now) × (handle_desync H now ds s ≡ finished s')
        × Removes H now s s'
        × Every (λ d. has_key d.player_id s'.map ≡ false) ds
  unfolding handle_desync has_key
  handle_desync-Removes ds s v =
      let (s1, e, r, all) = remove_desynced-Removes (desync_targets H now [] ds s.map) s v in
      (
        s1,
        e,
        r,
        Every-map (λ d c. covered s1 r all d c) ds (desync_targets-Covers [] ds s.map H now),
      )
    where
      covered :
          (s1 : Sh H now)
          → Removes H now s s1
          → ((k : ℕ)
              → is_reported k (desync_targets H now [] ds s.map) ≡ true
              → has_key k s1.map ≡ false)
          → (d : PlayerDesync) → Covers [] (desync_targets H now [] ds s.map) s.map d
          → has_key d.player_id s1.map ≡ false
      covered s1 r all d (inl h) = cc h
      covered s1 r all d (inr (inl h)) = elim (Bool-cases (has_key d.player_id s1.map)) [
        | inl on ↦ absurd (cc (r.leaves.within d.player_id on, h))
        | inr off ↦ off
      ]
      covered s1 r all d (inr (inr h)) = all d.player_id h

  -- On the answer that the game goes on, the player does not lag.
  abbrev pub Answers : ℕ → AckAction × Sh H now → Type 0
  Answers player_id (ack_continue, s') = has_key player_id s'.lagging_player_ids ≡ false
  Answers player_id (check_stop, s') = Unit

  -- The players that an answer of the ticks reports.
  abbrev pub reported : Sync.AckReturn → List PlayerDesync
  reported (Sync.ok res) = desync_list H now res.desync
  reported (Sync.player_not_found p) = []
  reported (Sync.tick_not_found d) = d ∷ []
