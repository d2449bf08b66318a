-- ===== src/Node/Dispatch/Lag/Queues.antt =====
-- crates/node/src/game/host/dispatch.rs: waiting for players, and dropping them, queues no action.
use w3c_flo.Common.{
  ℕ, ◌≡◌, refl, sym, subst, Bool, true, false, Option, none, some, List, [], ◌∷◌, inl, inr,
  if_cases, Option-cases, Every, Every-append, ◌++◌,
}
use w3c_flo.Common.Maps.{SortedMap, SortedSet, get, insert, keys}
use w3c_flo.Node.Player.{
  PlayerSendError, start_lag, end_lag, set_lag_slots, remove_lag_slot, send_w3gs,
}
use w3c_flo.Node.Dispatch.Packets
use w3c_flo.Node.Dispatch.Packets.{Packet, PlayerInfo, packet_type_id, packet_actions, allow_list}
use w3c_flo.Node.Dispatch.Shared.{
  Host, finished, Sh, broadcast, handle_player_send_errors, remove_player_and_broadcast,
}
use w3c_flo.Node.Dispatch.Shared.Queues.{
  queued, Queued, Queued-refl, Queued-trans, Queued-insert, Queued-cons, Queued-empty, unchanged,
  send_w3gs-queued, run_parts, finished-eq,
}
use w3c_flo.Node.Dispatch.Shared.Delivery.{
  remove_player_and_broadcast-Queued, handle_player_send_errors-Queued, broadcast-Queued,
}
use w3c_flo.Node.Dispatch.Lag.{
  LagItem, refresh_items, refresh_lag_packet, send_start_lag, add_lagging, wait_for, handle_lag,
  is_item, item_slots, to_lag_players, has_caught_up, stop_at, stop_with, stop_step, stop_loop,
  stop_targets, send_stop_lag, stop_all, check_stop_lag, drop_players, drop_all_lag_players,
}

refresh_items-Queued :
    (now : ℕ) (ids : List ℕ) (m : SortedMap PlayerInfo) → Queued [] m (refresh_items now ids m).1
unfolding refresh_items start_lag
refresh_items-Queued now [] m = Queued-refl m
refresh_items-Queued now (id ∷ ids) m = elim (Option-cases (get id m)) [
  | inl e ↦ rw (refresh_items, e) (refresh_items-Queued now ids m)
  | inr (info, e) ↦
      let m1 = insert id (start_lag now info).1 m in
      rw (refresh_items, e)
        (Queued-trans [] [] m m1 (refresh_items now ids m1).1
          (Queued-insert id info (start_lag now info).1 m e refl) (refresh_items-Queued now ids m1))
]

stop_targets-Queued :
    (H : Host) (now slot : ℕ) (m : SortedMap PlayerInfo) → Queued [] m (stop_targets H now slot m).1
unfolding stop_targets remove_lag_slot
stop_targets-Queued H now slot [] = Queued-empty []
stop_targets-Queued H now slot ((id, info) ∷ m) =
    Queued-cons [] id info (remove_lag_slot slot info).1 m _
      (unchanged info (remove_lag_slot slot info).1 refl) (stop_targets-Queued H now slot m)

module _ (H : Host) (now : ℕ) where
  told_lag :
      (items : List LagItem) (info : PlayerInfo)
      → let packet = Packets.start_lag (to_lag_players items) in
        queued
          (send_w3gs H.try_send
            (packet_type_id packet)
            packet
            (set_lag_slots (item_slots items) info)).1
        ≡ queued info ++ []
  unfolding set_lag_slots
  told_lag items info =
      send_w3gs-queued H.try_send (Packets.start_lag (to_lag_players items))
        (set_lag_slots (item_slots items) info)

  send_start_lag-Queued :
      (items : List LagItem) (m : SortedMap PlayerInfo)
      → Queued [] m (send_start_lag H now items m).0
  unfolding send_start_lag
  send_start_lag-Queued items [] = Queued-empty []
  send_start_lag-Queued items ((id, info) ∷ m) =
      let packet = Packets.start_lag (to_lag_players items) in
      let rest = send_start_lag-Queued items m in
      if_cases
        (λ (r : SortedMap PlayerInfo × List (ℕ × PlayerSendError)). Queued [] ((id, info) ∷ m) r.0)
        (is_item id items) _ _
        (λ _. Queued-cons [] id info info m _ (unchanged info info refl) rest)
        (λ _.
          Queued-cons [] id info
            (send_w3gs H.try_send (packet_type_id packet) packet
              (set_lag_slots (item_slots items) info)).1
            m _ (told_lag items info) rest)

  wait_for-Queued :
      (items : List LagItem) (s : Sh H now) (r : Bool × Sh H now)
      → wait_for H now items s ≡ finished r
      → Queued [] s.map r.1.map
  unfolding wait_for
  wait_for-Queued [] s r e =
      subst (λ (x : Bool × Sh H now). Queued [] s.map x.1.map) (finished-eq (false, s) r e)
        (Queued-refl s.map)
  wait_for-Queued (item ∷ more) s r e =
      let (m, errors) = send_start_lag H now (item ∷ more) s.map in
      let s1 : Sh H now = record s { map = m; drop_votes = [] } in
      let (s2, e1, e2) = run_parts (handle_player_send_errors H now errors s1) _ e in
      subst (λ (x : Bool × Sh H now). Queued [] s.map x.1.map) (finished-eq (true, s2) r e2)
        (Queued-trans [] [] s.map m s2.map (send_start_lag-Queued (item ∷ more) s.map)
          (handle_player_send_errors-Queued H now errors s1 s2 e1))

  pub handle_lag-Queued :
      (ids : List ℕ) (s : Sh H now) (r : Bool × Sh H now)
      → handle_lag H now ids s ≡ finished r
      → Queued [] s.map r.1.map
  unfolding handle_lag add_lagging refresh_lag_packet
  handle_lag-Queued ids s r e =
      let s1 = add_lagging H now ids s in
      let (items, m) = refresh_items now (keys s1.lagging_player_ids) s.map in
      Queued-trans [] [] s.map m r.1.map
        (refresh_items-Queued now (keys s1.lagging_player_ids) s.map)
        (wait_for-Queued items (record s1 { map = m }) r e)

  stop_at-Queued :
      (id : ℕ) (o : Option PlayerInfo) (s : Sh H now)
      → get id s.map ≡ o
      → Queued [] s.map (stop_at H now id o s).1.map
  unfolding stop_at end_lag
  stop_at-Queued id none s e = elim (Option-cases (get id s.slot_id_lookup)) [
    | inl f ↦ rw (stop_at, f) (Queued-refl s.map)
    | inr (slot, f) ↦ rw (stop_at, f) (Queued-refl s.map)
  ]
  stop_at-Queued id (some info) s e =
      if_cases (λ (r : Option (ℕ × ℕ) × Sh H now). Queued [] s.map r.1.map)
        (has_caught_up H now id info s) _ _
        (λ _. Queued-insert id info (end_lag now info).1 s.map e refl) (λ _. Queued-refl s.map)

  stop_with-map : (id : ℕ) (r : Option (ℕ × ℕ) × Sh H now) → (stop_with H now id r).1.map ≡ r.1.map
  unfolding stop_with
  stop_with-map id (none, s) = refl
  stop_with-map id (some (slot, ms), s) = refl

  stop_loop-Queued : (ids : List ℕ) (s : Sh H now) → Queued [] s.map (stop_loop H now ids s).1.map
  unfolding stop_loop stop_step
  stop_loop-Queued [] s = Queued-refl s.map
  stop_loop-Queued (id ∷ ids) s =
      let looked = stop_at H now id (get id s.map) s in
      let s1 = (stop_with H now id looked).1 in
      Queued-trans [] [] s.map s1.map (stop_loop H now ids s1).1.map
        (subst (λ m. Queued [] s.map m) (sym (stop_with-map id looked))
          (stop_at-Queued id (get id s.map) s refl))
        (stop_loop-Queued ids s1)

  -- Packets that end a lag.
  send_stop_lag-Queued :
      (packets : List (ℕ × Packet)) (s s' : Sh H now)
      → Every (λ p. packet_actions p.1 ≡ []) packets
      → send_stop_lag H now packets s ≡ finished s'
      → Queued [] s.map s'.map
  unfolding send_stop_lag
  send_stop_lag-Queued [] s s' w e =
      subst (λ (x : Sh H now). Queued [] s.map x.map) (finished-eq s s' e) (Queued-refl s.map)
  send_stop_lag-Queued ((slot, packet) ∷ packets) s s' w e =
      let (targets, m) = stop_targets H now slot s.map in
      let s1 : Sh H now = record s { map = m } in
      let (s2, e1, e2) =
        run_parts (broadcast H now packet (allow_list targets) s1) (send_stop_lag H now packets)
          e in
      Queued-trans [] [] s.map m s'.map (stop_targets-Queued H now slot s.map) (
        Queued-trans [] [] m s2.map s'.map
          (subst (λ l. Queued l m s2.map) w.0
            (broadcast-Queued H now packet (allow_list targets) s1 s2 (inl w.0) e1))
          (send_stop_lag-Queued packets s2 s' w.1 e2))

  stop_with-silent :
      (id : ℕ) (r : Option (ℕ × ℕ) × Sh H now)
      → Every (λ p. packet_actions p.1 ≡ []) (stop_with H now id r).0
  unfolding stop_with
  stop_with-silent id (none, s) = tt
  stop_with-silent id (some (slot, ms), s) = (refl, tt)

  stop_loop-silent :
      (ids : List ℕ) (s : Sh H now) → Every (λ p. packet_actions p.1 ≡ []) (stop_loop H now ids s).0
  unfolding stop_loop stop_step
  stop_loop-silent [] s = tt
  stop_loop-silent (id ∷ ids) s =
      let looked = stop_at H now id (get id s.map) s in
      Every-append (λ p. packet_actions p.1 ≡ []) (stop_with H now id looked).0 _
        (stop_with-silent id looked) (stop_loop-silent ids (stop_with H now id looked).1)

  stop_all-Queued :
      (lagging : SortedSet) (s : Sh H now) (r : Bool × Sh H now)
      → stop_all H now lagging s ≡ finished r
      → Queued [] s.map r.1.map
  unfolding stop_all
  stop_all-Queued [] s r e =
      subst (λ (x : Bool × Sh H now). Queued [] s.map x.1.map) (finished-eq (false, s) r e)
        (Queued-refl s.map)
  stop_all-Queued (x ∷ xs) s r e =
      let (packets, s1) = stop_loop H now (keys (x ∷ xs)) s in
      let (s2, e1, e2) = run_parts (send_stop_lag H now packets s1) _ e in
      subst (λ (y : Bool × Sh H now). Queued [] s.map y.1.map) (finished-eq _ r e2)
        (Queued-trans [] [] s.map s1.map s2.map (stop_loop-Queued (keys (x ∷ xs)) s)
          (send_stop_lag-Queued packets s1 s2 (stop_loop-silent (keys (x ∷ xs)) s) e1))

  pub check_stop_lag-Queued :
      (s : Sh H now) (r : Bool × Sh H now)
      → check_stop_lag H now s ≡ finished r
      → Queued [] s.map r.1.map
  unfolding check_stop_lag
  check_stop_lag-Queued s r e = stop_all-Queued s.lagging_player_ids s r e

  drop_players-Queued :
      (ids : List ℕ) (s s' : Sh H now)
      → drop_players H now ids s ≡ finished s'
      → Queued [] s.map s'.map
  unfolding drop_players
  drop_players-Queued [] s s' e =
      subst (λ (x : Sh H now). Queued [] s.map x.map) (finished-eq s s' e) (Queued-refl s.map)
  drop_players-Queued (id ∷ ids) s s' e =
      let (s1, e1, e2) =
        run_parts (remove_player_and_broadcast H now id none s) (drop_players H now ids) e in
      Queued-trans [] [] s.map s1.map s'.map
        (remove_player_and_broadcast-Queued H now id none s s1 e1)
        (drop_players-Queued ids s1 s' e2)

  pub drop_all_lag_players-Queued :
      (s s' : Sh H now) → drop_all_lag_players H now s ≡ finished s' → Queued [] s.map s'.map
  unfolding drop_all_lag_players
  drop_all_lag_players-Queued s s' e =
      let (s1, e1, e2) = run_parts (drop_players H now (keys s.lagging_player_ids) s) _ e in
      subst (λ (x : Sh H now). Queued [] s.map x.map) (finished-eq _ s' e2)
        (drop_players-Queued (keys s.lagging_player_ids) s s1 e1)
