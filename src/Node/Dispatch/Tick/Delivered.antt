-- ===== src/Node/Dispatch/Tick/Delivered.antt =====
-- crates/node/src/game/host/dispatch.rs: the actions of a tick that is sent join the queues of all players.
use w3c_flo.Common.{
  ℕ, ◌^◌, ◌≤◌, ◌<◌, ◌≡◌, refl, sym, ◌∙◌, ap, subst, Bool, true, false, List, [], ◌∷◌, ◌++◌, length,
  Every, inr,
}
use mathlib.Core.List.{append_assoc}
use w3c_flo.W3gs.Action.{PlayerAction, byte_len, bytes_len}
use w3c_flo.Node.Clock.{Tick}
use w3c_flo.Node.Sync.{ClockResult, lag, tick, clock}
use w3c_flo.Node.Dispatch.Fragments.{dispatch_actions_mtu, fragment, fragments}
use w3c_flo.Node.Dispatch.Fragments.Kept.{kept, fragments-kept}
use w3c_flo.Node.Dispatch.Packets.{
  Packet, incoming_action, incoming_action2, everyone, push_w3gs, packet_actions,
}
use w3c_flo.Node.Dispatch.Shared.{Host, finished, run, Sh}
use w3c_flo.Node.Dispatch.Shared.Queues.{Queued, Queued-refl, Queued-trans, run_parts, finished-eq}
use w3c_flo.Node.Dispatch.Shared.Delivery.{broadcast-Queued}
use w3c_flo.Node.Dispatch.Lag.Queues.{handle_lag-Queued}
use w3c_flo.Node.Dispatch.Tick.{
  DispatchResult, continue, lagged, publish, publish_slots, publish_fragments, publish_tick,
  hold_tick, send_or_keep, dispatch_action_tick,
}

unfoldable pub concat : List (List PlayerAction) → List PlayerAction
concat [] = []
concat (slot ∷ slots) = slot ++ concat slots

pub kept-concat :
    (slots : List (List PlayerAction)) (last : List PlayerAction)
    → concat slots ++ last ≡ kept (slots, last)
unfolding concat
kept-concat [] last = refl
kept-concat (slot ∷ slots) last =
    append_assoc slot (concat slots) last ∙ ap (λ l. slot ++ l) (kept-concat slots last)

-- A tick that knows its size, with no action that is too long for a packet.
pub record IsMeasured (t : Tick) : Type 0 where
  pub size : t.actions_bytes_len ≡ bytes_len t.actions
  pub bounded : bytes_len t.actions < 2 ^ 64
  pub small : Every (λ a. byte_len a ≤ dispatch_actions_mtu) t.actions

module _ (H : Host) (now : ℕ) where
  publish-Queued :
      (packet : Packet) (s s' : Sh H now)
      → publish H now packet s ≡ finished s'
      → Queued (packet_actions packet) s.map s'.map
  unfolding publish
  publish-Queued packet s s' e =
      broadcast-Queued H now packet everyone (record s { obs = s.obs ++ (push_w3gs packet ∷ []) })
        s' (inr refl) e

  publish_slots-Queued :
      (slots : List (List PlayerAction)) (s s' : Sh H now)
      → publish_slots H now slots s ≡ finished s'
      → Queued (concat slots) s.map s'.map
  unfolding publish_slots concat
  publish_slots-Queued [] s s' e =
      subst (λ (x : Sh H now). Queued [] s.map x.map) (finished-eq s s' e) (Queued-refl s.map)
  publish_slots-Queued (slot ∷ slots) s s' e =
      let packet = incoming_action2 (record { time_increment_ms = 0; actions = slot }) in
      let (s1, e1, e2) = run_parts (publish H now packet s) (publish_slots H now slots) e in
      Queued-trans slot (concat slots) s.map s1.map s'.map (publish-Queued packet s s1 e1)
        (publish_slots-Queued slots s1 s' e2)

  publish_tick-Queued :
      (t : Tick) (s s' : Sh H now)
      → IsMeasured t
      → publish_tick H now t s ≡ finished s'
      → Queued t.actions s.map s'.map
  unfolding publish_tick publish_fragments fragments
  publish_tick-Queued t s s' m e =
      let ((slots, last), f, all) = fragments-kept t.actions m.bounded m.small in
      let packet =
        incoming_action (record { time_increment_ms = t.time_increment_ms; actions = last }) in
      let (s1, e1, e2) = run_parts (publish_slots H now slots s) (publish H now packet) (
        sym (
          ap
            (λ n.
              publish_fragments H now t.time_increment_ms (fragment (length t.actions) n t.actions)
                s)
            m.size
          ∙ ap (λ o. publish_fragments H now t.time_increment_ms o s) f)
        ∙ e) in
      subst (λ l. Queued l s.map s'.map) (kept-concat slots last ∙ all)
        (Queued-trans (concat slots) last s.map s1.map s'.map (publish_slots-Queued slots s s1 e1)
          (publish-Queued packet s1 s' e2))

  hold_tick-Queued :
      (result : ClockResult) (s : Sh H now) (r : Bool × Sh H now)
      → hold_tick H now result s ≡ finished r
      → Queued [] s.map r.1.map
  unfolding hold_tick
  hold_tick-Queued tick s r e =
      subst (λ (x : Bool × Sh H now). Queued [] s.map x.1.map) (finished-eq (false, s) r e)
        (Queued-refl s.map)
  hold_tick-Queued (lag ids) s r e = handle_lag-Queued H now ids s r e

  -- The actions of a tick that is sent join the queue of each player that stays, and a tick that waits
  -- queues none.
  abbrev pub Delivered : Tick → Sh H now → DispatchResult × Sh H now → Type 0
  Delivered t s (continue, s') = Queued t.actions s.map s'.map
  Delivered t s (lagged t', s') = Queued [] s.map s'.map

  send_or_keep-Delivered :
      (t : Tick) (s : Sh H now) (r : Bool × Sh H now) (d : DispatchResult × Sh H now)
      → IsMeasured t
      → Queued [] s.map r.1.map
      → send_or_keep H now t r ≡ finished d
      → Delivered t s d
  unfolding send_or_keep
  send_or_keep-Delivered t s (true, s1) d m q e =
      subst (Delivered t s) (finished-eq (lagged t, s1) d e) q
  send_or_keep-Delivered t s (false, s1) d m q e =
      let (s2, e1, e2) = run_parts (publish_tick H now t s1) _ e in
      subst (Delivered t s) (finished-eq (continue, s2) d e2)
        (Queued-trans [] t.actions s.map s1.map s2.map q (publish_tick-Queued t s1 s2 m e1))

  pub dispatch_action_tick-Delivered :
      (t : Tick) (s : Sh H now) (d : DispatchResult × Sh H now)
      → IsMeasured t
      → dispatch_action_tick H now t s ≡ finished d
      → Delivered t s d
  unfolding dispatch_action_tick
  dispatch_action_tick-Delivered t s d m e =
      let ((sync, result), _, f) =
        run_parts (run (clock H.slab_ops s.sync t.time_increment_ms now)) _ e in
      let (r, g, h) =
        run_parts (hold_tick H now result (record s { sync = sync })) (send_or_keep H now t) f in
      send_or_keep-Delivered t s r d m (hold_tick-Queued result (record s { sync = sync }) r g) h
