-- ===== src/Node/Dispatch/Shared/Removed.antt =====
-- crates/node/src/game/host/dispatch.rs: sending a packet and removing a player end, and leave a sound
-- state.
use w3c_flo.Common.{
  ℕ, zero, suc, ◌≤◌, ◌<◌, ◌≡◌, refl, sym, ◌∙◌, ap, Bool, true, false, not, ◌&&◌, Option, none, some,
  List, [], ◌∷◌, ◌++◌, if◌then◌else◌, length, arith, ◌==◌, Option-cases, Bool-cases, inl, inr,
}
use w3c_flo.Common.Maps.{
  SortedMap, get, has_key, remove, remove-Above, has_key-get, get-has_key, has_key-remove,
  has_key-remove_cases, length-has_key,
}
use w3c_flo.Common.Maps.Keys.{SameKeys-has_key, SameKeys-Above, SameKeys-length, length-remove}
use w3c_flo.Node.Player.{PlayerSendError}
use w3c_flo.Node.Sync.Slab.{SlabLaws}
use w3c_flo.Node.Sync.Leave.{remove_player-IsValid}
use w3c_flo.Node.Dispatch.Packets.{
  Packet, Message, BroadcastTarget, PlayerInfo, LeaveReason, player_left, unwrap_reason, deny_list,
  action_log_silent, packet_actions, push_w3gs,
}
use w3c_flo.Node.Dispatch.Shared.{
  Host, finished, Sh, broadcast_with, remove_lag_slots, forget_delay, take_off, finish_removal,
  remove_on, remove_player_and_broadcast, closed_list, handle_player_send_errors, broadcast,
  broadcast_message,
}
use w3c_flo.Node.Dispatch.Shared.Players.{
  remove_lag_slots-SameKeys, message_all-SameKeys, IsSound, Removes, EndsWith, Removes-same,
  SameKeys-refl,
}
use w3c_flo.Node.Dispatch.Shared.Sending.{
  EndsBelow, handle_errors_with-Removes, broadcast_with-Removes,
}

module _ (H : Host) (now : ℕ) where
  module _ (L : SlabLaws H.slab_ops) where
    step_dropped :
        (k p : ℕ) (y y2 y3 m m1 m2 : Bool)
        → (p ≡ k → m ≡ true)
        → m1 ≡ (if p == k then false else m)
        → (m2 ≡ true → m1 ≡ true)
        → y2 ≡ (y && not (m1 && not m2))
        → y3 ≡ (if p == k then false else y2)
        → y3 ≡ (y && not (m && not m2))
    step_dropped k p y y2 y3 m m1 m2 here e1 w e2 e3 = ground (arith, here, w)

    finish_removal-Removes :
        (player_id : ℕ) (player : PlayerInfo) (packet : Packet) (s s2 : Sh H now)
        → IsSound H now s
        → get player_id s.map ≡ some player
        → let s1 = take_off H now player_id player packet (forget_delay H now player_id s) in
          Removes H now s1 s2
          → packet_actions packet ≡ []
          → EndsWith H now
              (λ s3. Removes H now s s3 × (has_key player_id s3.map ≡ false))
              (finish_removal H now player_id player s2)
    unfolding finish_removal take_off forget_delay
    finish_removal-Removes p player packet s s2 v e r silent =
        let ((sync, desync), done_sync, valid, players) =
          remove_player-IsValid H.slab_ops L s2.sync p r.leaves.sound.sync_valid in
        (
          record s2 { sync = sync; closed_streams = s2.closed_streams ++ closed_list player.tx },
          rw done_sync refl,
          (
            record {
              leaves = record {
                sound = record { map_sorted = r.leaves.sound.map_sorted; sync_valid = valid };
                within = λ k h. (has_key-remove_cases p k s.map (off k ∙ r.leaves.within k h)).1;
                dropped = λ k.
                    step_dropped k p _ _ _ _ _ _
                      (λ q. ap (λ j. has_key j s.map) (sym q) ∙ has_key-get p s.map e)
                      (sym (off k) ∙ has_key-remove p k s.map) (r.leaves.within k)
                      (r.leaves.dropped k)
                      (ap (λ x. has_key k x) players ∙ has_key-remove p k s2.sync.players);
              };
              same_lagging = r.same_lagging;
              same_votes = r.same_votes;
              same_started = r.same_started;
              same_slots = r.same_slots;
              same_actions = r.same_actions ∙ action_log_silent s.obs (push_w3gs packet) silent;
            },
            elim (Bool-cases (has_key p s2.map)) [
              | inl h ↦
                  absurd ((has_key-remove_cases p p s.map (off p ∙ r.leaves.within p h)).0 refl)
              | inr h ↦ h
            ],
          ),
        )
      where
        off :
            (k : ℕ)
            → has_key k (remove p s.map)
              ≡ has_key k (remove_lag_slots H now player.slot_player_id (remove p s.map))
        off k =
            SameKeys-has_key k (remove p s.map) _
              (remove_lag_slots-SameKeys H now player.slot_player_id (remove p s.map))

    take_off-IsSound :
        (player_id : ℕ) (player : PlayerInfo) (packet : Packet) (s : Sh H now)
        → IsSound H now s
        → get player_id s.map ≡ some player
        → let s1 = take_off H now player_id player packet (forget_delay H now player_id s) in
          IsSound H now s1 × (length s1.map < length s.map)
    unfolding take_off forget_delay
    take_off-IsSound p player packet s v e =
        let left = remove p s.map in
        let keys = remove_lag_slots-SameKeys H now player.slot_player_id left in
        (
          record {
            map_sorted = SameKeys-Above 0 left _ keys (remove-Above p 0 s.map v.map_sorted);
            sync_valid = v.sync_valid;
          },
          omega (
            arith,
            SameKeys-length left _ keys,
            length-remove p 0 s.map v.map_sorted (has_key-get p s.map e),
          ),
        )

    forget_delay-Removes :
        (player_id : ℕ) (s : Sh H now)
        → IsSound H now s
        → Removes H now s (forget_delay H now player_id s)
    unfolding forget_delay
    forget_delay-Removes p s v =
        Removes-same H now s _ v (SameKeys-refl H now s.map) refl refl refl refl refl refl

    -- The player is not on the map afterwards.
    abbrev pub RemovesPlayer : ℕ → Sh H now → Sh H now → Type 0
    RemovesPlayer player_id s s' = Removes H now s s' × (has_key player_id s'.map ≡ false)

    get-no_key : (k : ℕ) (m : SortedMap PlayerInfo) → get k m ≡ none → has_key k m ≡ false
    get-no_key k m e = elim (Bool-cases (has_key k m)) [
      | inl h ↦ let (v, f) = get-has_key k m h in absurd (cc (e, f))
      | inr h ↦ h
    ]

    remove_absent :
        (fuel player_id : ℕ) (reason : Option LeaveReason) (s : Sh H now)
        → get player_id s.map ≡ none
        → remove_on H now fuel player_id reason s ≡ finished (forget_delay H now player_id s)
    unfolding remove_on
    remove_absent zero p reason s e = rw (remove_on, e) refl
    remove_absent (suc fuel) p reason s e = rw (remove_on, e) refl

    remove_present :
        (fuel player_id : ℕ) (reason : Option LeaveReason) (s : Sh H now) {player : PlayerInfo}
        {s2 : Sh H now}
        → get player_id s.map ≡ some player
        → let packet = player_left player.slot_player_id (unwrap_reason reason) in
          broadcast_with H now
              (λ id. remove_on H now fuel id none)
              packet
              (deny_list (player_id ∷ []))
              (take_off H now player_id player packet (forget_delay H now player_id s))
            ≡ finished s2
          → remove_on H now (suc fuel) player_id reason s ≡ finish_removal H now player_id player s2
    unfolding remove_on
    remove_present fuel p reason s e f = rw (remove_on, e) (rw f refl)

    remove_on-Removes :
        (fuel player_id : ℕ) (reason : Option LeaveReason) (s : Sh H now)
        → IsSound H now s
        → length s.map ≤ fuel
        → EndsWith H now (RemovesPlayer player_id s) (remove_on H now fuel player_id reason s)
    unfolding remove_on
    remove_on-Removes zero p reason s v l = elim (Option-cases (get p s.map)) [
      | inl e ↦ (
        forget_delay H now p s,
        remove_absent zero p reason s e,
        (forget_delay-Removes p s v, unfold forget_delay in get-no_key p s.map e),
      )
      | inr (player, e) ↦ absurd (omega (arith, length-has_key p s.map (has_key-get p s.map e)))
    ]
    remove_on-Removes (suc fuel) p reason s v l = elim (Option-cases (get p s.map)) [
      | inl e ↦ (
        forget_delay H now p s,
        remove_absent (suc fuel) p reason s e,
        (forget_delay-Removes p s v, unfold forget_delay in get-no_key p s.map e),
      )
      | inr (player, e) ↦
          let packet = player_left player.slot_player_id (unwrap_reason reason) in
          let s1 = take_off H now p player packet (forget_delay H now p s) in
          let (sound, shorter) = take_off-IsSound p player packet s v e in
          let (s2, e2, r) =
            broadcast_with-Removes H now fuel (λ id. remove_on H now fuel id none)
              (λ id t w q. let (t', f, (g, _)) = remove_on-Removes fuel id none t w q in (t', f, g))
              packet (deny_list (p ∷ [])) s1 sound (omega (arith, shorter, l)) in
          let (s3, e3, r3) = finish_removal-Removes p player packet s s2 v e r refl in
          (s3, remove_present fuel p reason s e e2 ∙ e3, r3)
    ]

    -- Removing a player ends, whoever it is: players whose queues are full are removed on the way, each at
    -- most once. The player is off the map then, all who left are off the map and the ticks at once, no
    -- other player is, and the state is sound if it was so before.
    pub remove_player_and_broadcast-Removes :
        (player_id : ℕ) (reason : Option LeaveReason) (s : Sh H now)
        → IsSound H now s
        → EndsWith H now
            (RemovesPlayer player_id s)
            (remove_player_and_broadcast H now player_id reason s)
    unfolding remove_player_and_broadcast
    remove_player_and_broadcast-Removes p reason s v =
        remove_on-Removes (length s.map) p reason s v (omega arith)

    remove-EndsBelow : (n : ℕ) → EndsBelow H now n (λ id. remove_player_and_broadcast H now id none)
    remove-EndsBelow n id s v l =
        let (s', e, (r, _)) = remove_player_and_broadcast-Removes id none s v in (s', e, r)

    pub handle_player_send_errors-Removes :
        (errors : List (ℕ × PlayerSendError)) (s : Sh H now)
        → IsSound H now s
        → EndsWith H now (Removes H now s) (handle_player_send_errors H now errors s)
    unfolding handle_player_send_errors
    handle_player_send_errors-Removes errors s v =
        handle_errors_with-Removes H now (length s.map) _ (remove-EndsBelow (length s.map)) errors s
          v (omega arith)

    pub broadcast-Removes :
        (packet : Packet) (target : BroadcastTarget) (s : Sh H now)
        → IsSound H now s
        → EndsWith H now (Removes H now s) (broadcast H now packet target s)
    unfolding broadcast
    broadcast-Removes packet target s v =
        broadcast_with-Removes H now (length s.map) _ (remove-EndsBelow (length s.map)) packet
          target s v (omega arith)

    pub broadcast_message-Removes :
        (message : Message) (s : Sh H now)
        → IsSound H now s
        → Removes H now s (broadcast_message H now message s)
    unfolding broadcast_message
    broadcast_message-Removes message s v =
        Removes-same H now s _ v (message_all-SameKeys H now message s.map) refl refl refl refl refl
          refl
