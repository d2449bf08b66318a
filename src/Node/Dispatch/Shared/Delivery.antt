-- ===== src/Node/Dispatch/Shared/Delivery.antt =====
-- crates/node/src/game/host/dispatch.rs: what the sending of packets and the removal of players do to the
-- queues.
use w3c_flo.Common.{
  ℕ, zero, suc, ◌≡◌, refl, sym, ◌∙◌, ap, subst, Option, none, List, [], ◌∷◌, ◌++◌, ◌⊎◌, inl, inr,
  if_cases, Option-cases, Bool-cases, length, leb,
}
use mathlib.Core.List.{append-nil}
use w3c_flo.Common.Maps.{SortedMap, get, remove}
use w3c_flo.Net.AckQueue.{pending_ack_len}
use w3c_flo.Node.Player.{
  PlayerSendError, not_connected, channel_closed, channel_full, ack_queue_full, send_w3gs,
  remove_lag_slot, send_private_message,
}
use w3c_flo.Node.Sync.Remove.{remove_player}
use w3c_flo.Node.Dispatch.Packets.{
  Packet, Message, BroadcastTarget, everyone, target_contains, PlayerInfo, LeaveReason,
  packet_actions, packet_type_id, unwrap_reason, player_left, deny_list, chat_from_host,
}
use w3c_flo.Node.Dispatch.Shared.{
  Host, Run, finished, stuck, ◌>>=◌, run, Sh, Sent, send_or_enqueue, close_entry, check_queue,
  send_entry, send_all, handle_errors_with, broadcast_with, with_sent, remove_lag_slots,
  forget_delay, take_off, finish_removal, remove_on, remove_player_and_broadcast,
  handle_player_send_errors, broadcast, message_all, broadcast_message, game_player_max_ack_queue,
}
use w3c_flo.Node.Dispatch.Shared.Queues.{
  queued, Queued, Queued-refl, Queued-trans, Queued-remove, Queued-cons, Queued-empty, unchanged,
  send_w3gs-queued, enqueue_w3gs-queued, close_stream-queued, run_parts, finished-eq,
}

stuck_not {ℓ} : {A : Type ℓ} {a : A} → ¬ (stuck ≡ finished a)
stuck_not e = cc

module _ (H : Host) (now : ℕ) where
  send_or_enqueue-queued :
      (packet : Packet) (info : PlayerInfo)
      → queued (send_or_enqueue H now packet info).info ≡ queued info ++ packet_actions packet
  unfolding send_or_enqueue close_entry
  send_or_enqueue-queued packet info = elim (Option-cases info.tx) [
    | inl e ↦ rw (send_or_enqueue, e) (enqueue_w3gs-queued packet info)
    | inr (stream, e) ↦
        elim (Option-cases (send_w3gs H.try_send (packet_type_id packet) packet info).0) [
          | inl f ↦ rw (send_or_enqueue, e, f) (send_w3gs-queued H.try_send packet info)
          | inr (error, f) ↦
              rw (send_or_enqueue, e, f)
                (close_stream-queued now
                    (send_w3gs H.try_send (packet_type_id packet) packet info).1
                  ∙ send_w3gs-queued H.try_send packet info)
        ]
  ]

  check_queue-queued : (sent : Sent) → queued (check_queue H now sent).info ≡ queued sent.info
  unfolding check_queue
  check_queue-queued sent =
      if_cases (λ (x : Sent). queued x.info ≡ queued sent.info)
        (leb game_player_max_ack_queue (pending_ack_len sent.info.w3gs_ack_q)) _ _ (λ _. refl)
        (λ _. refl)

  -- The packet has no action, or goes to all.
  abbrev pub IsWhole : BroadcastTarget → Packet → Type 0
  IsWhole target packet = (packet_actions packet ≡ []) ⊎ (target ≡ everyone)

  send_entry-queued :
      (target : BroadcastTarget) (packet : Packet) (player_id : ℕ) (info : PlayerInfo)
      → IsWhole target packet
      → queued (send_entry H now target packet player_id info).info
        ≡ queued info ++ packet_actions packet
  unfolding send_entry target_contains
  send_entry-queued target packet player_id info w =
      elim (Bool-cases (target_contains target player_id)) [
        | inl there ↦ rw there (
            check_queue-queued (send_or_enqueue H now packet info)
            ∙ send_or_enqueue-queued packet info)
        | inr away ↦ elim w [
          | inl silent ↦
              rw away (sym (append-nil (queued info)) ∙ ap (λ l. queued info ++ l) (sym silent))
          | inr all ↦ absurd (cc (away, ap (λ t. target_contains t player_id) all))
        ]
      ]

  send_all-Queued :
      (target : BroadcastTarget) (packet : Packet) (m : SortedMap PlayerInfo)
      → IsWhole target packet
      → Queued (packet_actions packet) m (send_all H now target packet m).entries
  unfolding send_all
  send_all-Queued target packet [] w = Queued-empty (packet_actions packet)
  send_all-Queued target packet ((k, info) ∷ m) w =
      Queued-cons (packet_actions packet) k info _ m _ (send_entry-queued target packet k info w)
        (send_all-Queued target packet m w)

  -- Removing a player adds no action to a queue.
  abbrev IsQuiet : (ℕ → Sh H now → Run (Sh H now)) → Type 0
  IsQuiet f = (id : ℕ) (s s' : Sh H now) → f id s ≡ finished s' → Queued [] s.map s'.map

  handle_errors_with-Queued :
      (f : ℕ → Sh H now → Run (Sh H now)) (errors : List (ℕ × PlayerSendError)) (s s' : Sh H now)
      → IsQuiet f
      → handle_errors_with H now f errors s ≡ finished s'
      → Queued [] s.map s'.map
  unfolding handle_errors_with
  handle_errors_with-Queued f [] s s' q e =
      subst (λ (x : Sh H now). Queued [] s.map x.map) (finished-eq s s' e) (Queued-refl s.map)
  handle_errors_with-Queued f ((id, not_connected) ∷ errors) s s' q e =
      handle_errors_with-Queued f errors s s' q e
  handle_errors_with-Queued f ((id, channel_closed) ∷ errors) s s' q e =
      handle_errors_with-Queued f errors s s' q e
  handle_errors_with-Queued f ((id, channel_full) ∷ errors) s s' q e =
      handle_errors_with-Queued f errors s s' q e
  handle_errors_with-Queued f ((id, ack_queue_full) ∷ errors) s s' q e =
      let (s1, e1, e2) = run_parts (f id s) (handle_errors_with H now f errors) e in
      Queued-trans [] [] s.map s1.map s'.map (q id s s1 e1)
        (handle_errors_with-Queued f errors s1 s' q e2)

  broadcast_with-Queued :
      (f : ℕ → Sh H now → Run (Sh H now)) (packet : Packet) (target : BroadcastTarget)
      (s s' : Sh H now)
      → IsQuiet f
      → IsWhole target packet
      → broadcast_with H now f packet target s ≡ finished s'
      → Queued (packet_actions packet) s.map s'.map
  unfolding broadcast_with
  broadcast_with-Queued f packet target s s' q w e =
      let all = send_all H now target packet s.map in
      subst (λ l. Queued l s.map s'.map) (append-nil (packet_actions packet))
        (Queued-trans (packet_actions packet) [] s.map all.entries s'.map
          (send_all-Queued target packet s.map w)
          (handle_errors_with-Queued f all.errors (with_sent H now all s) s' q e))

  remove_lag_slots-Queued :
      (slot : ℕ) (m : SortedMap PlayerInfo) → Queued [] m (remove_lag_slots H now slot m)
  unfolding remove_lag_slots remove_lag_slot
  remove_lag_slots-Queued slot [] = Queued-empty []
  remove_lag_slots-Queued slot ((k, info) ∷ m) =
      Queued-cons [] k info _ m _ (unchanged info (remove_lag_slot slot info).1 refl)
        (remove_lag_slots-Queued slot m)

  finish_removal-map :
      (player_id : ℕ) (player : PlayerInfo) (s s' : Sh H now)
      → finish_removal H now player_id player s ≡ finished s'
      → s.map ≡ s'.map
  unfolding finish_removal
  finish_removal-map player_id player s s' e =
      let (r, _, f) = run_parts (run (remove_player H.slab_ops s.sync player_id)) _ e in
      ap (λ (x : Sh H now). x.map) (finished-eq _ s' f)

  absent_quiet :
      (fuel id : ℕ) (reason : Option LeaveReason) (s s' : Sh H now)
      → get id s.map ≡ none
      → remove_on H now fuel id reason s ≡ finished s'
      → Queued [] s.map s'.map
  unfolding remove_on forget_delay
  absent_quiet zero id reason s s' g e =
      subst (λ (x : Sh H now). Queued [] s.map x.map)
        (finished-eq (forget_delay H now id s) s' (rw (remove_on, g) refl ∙ e)) (Queued-refl s.map)
  absent_quiet (suc fuel) id reason s s' g e =
      subst (λ (x : Sh H now). Queued [] s.map x.map)
        (finished-eq (forget_delay H now id s) s' (rw (remove_on, g) refl ∙ e)) (Queued-refl s.map)

  take_off-Queued :
      (player_id : ℕ) (player : PlayerInfo) (packet : Packet) (s : Sh H now)
      → Queued [] s.map (take_off H now player_id player packet s).map
  unfolding take_off
  take_off-Queued player_id player packet s =
      Queued-trans [] [] s.map (remove player_id s.map) _ (Queued-remove player_id s.map)
        (remove_lag_slots-Queued player.slot_player_id (remove player_id s.map))

  remove_on-IsQuiet :
      (fuel : ℕ) (reason : Option LeaveReason) → IsQuiet (λ id. remove_on H now fuel id reason)
  unfolding remove_on forget_delay
  remove_on-IsQuiet zero reason id s s' e = elim (Option-cases (get id s.map)) [
    | inl g ↦ absent_quiet zero id reason s s' g e
    | inr (player, g) ↦ absurd (stuck_not (sym (rw (remove_on, g) refl) ∙ e))
  ]
  remove_on-IsQuiet (suc fuel) reason id s s' e = elim (Option-cases (get id s.map)) [
    | inl g ↦ absent_quiet (suc fuel) id reason s s' g e
    | inr (player, g) ↦
        let packet = player_left player.slot_player_id (unwrap_reason reason) in
        let s1 = take_off H now id player packet (forget_delay H now id s) in
        let sent =
          broadcast_with H now (λ k. remove_on H now fuel k none) packet (deny_list (id ∷ [])) s1 in
        let runs : remove_on H now (suc fuel) id reason s
            ≡ (sent >>= finish_removal H now id player) =
          rw (remove_on, g) refl in
        let (s2, e1, e2) = run_parts sent (finish_removal H now id player) (sym runs ∙ e) in
        subst (λ m. Queued [] s.map m) (finish_removal-map id player s2 s' e2)
          (Queued-trans [] [] s.map s1.map s2.map
            (take_off-Queued id player packet (forget_delay H now id s))
            (broadcast_with-Queued (λ k. remove_on H now fuel k none) packet (deny_list (id ∷ []))
              s1 s2 (remove_on-IsQuiet fuel none) (inl refl) e1))
  ]

  remove-IsQuiet :
      (reason : Option LeaveReason) → IsQuiet (λ id. remove_player_and_broadcast H now id reason)
  unfolding remove_player_and_broadcast
  remove-IsQuiet reason id s s' e = remove_on-IsQuiet (length s.map) reason id s s' e

  pub remove_player_and_broadcast-Queued :
      (player_id : ℕ) (reason : Option LeaveReason) (s s' : Sh H now)
      → remove_player_and_broadcast H now player_id reason s ≡ finished s'
      → Queued [] s.map s'.map
  remove_player_and_broadcast-Queued player_id reason s s' e =
      remove-IsQuiet reason player_id s s' e

  pub handle_player_send_errors-Queued :
      (errors : List (ℕ × PlayerSendError)) (s s' : Sh H now)
      → handle_player_send_errors H now errors s ≡ finished s'
      → Queued [] s.map s'.map
  unfolding handle_player_send_errors
  handle_player_send_errors-Queued errors s s' e =
      handle_errors_with-Queued _ errors s s' (remove-IsQuiet none) e

  -- A packet that is broadcast, and goes to all or has no action, joins the queues of all who stay.
  pub broadcast-Queued :
      (packet : Packet) (target : BroadcastTarget) (s s' : Sh H now)
      → IsWhole target packet
      → broadcast H now packet target s ≡ finished s'
      → Queued (packet_actions packet) s.map s'.map
  unfolding broadcast
  broadcast-Queued packet target s s' w e =
      broadcast_with-Queued _ packet target s s' (remove-IsQuiet none) w e

  message_one :
      (message : Message) (info : PlayerInfo)
      → let packet = chat_from_host info.slot_player_id message in
        queued (send_private_message H.try_send (packet_type_id packet) packet info)
        ≡ queued info ++ []
  unfolding send_private_message
  message_one message info = elim (Option-cases info.tx) [
    | inl e ↦ rw (send_private_message, e) (unchanged info info refl)
    | inr (stream, e) ↦
        rw (send_private_message, e)
          (send_w3gs-queued H.try_send (chat_from_host info.slot_player_id message) info)
  ]

  message_all-Queued :
      (message : Message) (m : SortedMap PlayerInfo) → Queued [] m (message_all H now message m)
  unfolding message_all
  message_all-Queued message [] = Queued-empty []
  message_all-Queued message ((k, info) ∷ m) =
      Queued-cons [] k info
        (send_private_message H.try_send
          (packet_type_id (chat_from_host info.slot_player_id message))
          (chat_from_host info.slot_player_id message) info)
        m _ (message_one message info) (message_all-Queued message m)

  pub broadcast_message-Queued :
      (message : Message) (s : Sh H now) → Queued [] s.map (broadcast_message H now message s).map
  unfolding broadcast_message
  broadcast_message-Queued message s = message_all-Queued message s.map
