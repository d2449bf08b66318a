-- ===== src/Node/Dispatch/Tick/Sound.antt =====
-- crates/node/src/game/host/dispatch.rs: a tick is sent whole, or kept whole while the game waits.
use w3c_flo.Common.{
  ℕ, ◌+◌, ◌^◌, ◌<◌, ◌≡◌, refl, sym, ap, subst, ◌∙◌, Bool, true, false, List, [], ◌∷◌, ◌++◌, length,
}
use mathlib.Core.List.{append_assoc, append-nil}
use w3c_flo.Common.Maps.{keys}
use w3c_flo.W3gs.Action.{PlayerAction}
use w3c_flo.Node.Sync.{ClockResult, lag, tick}
use w3c_flo.Node.Sync.Slab.{SlabLaws}
use w3c_flo.Node.Sync.Clock.{clock-IsValid, clock-players}
use w3c_flo.Node.Dispatch.Fragments.{fragment, fragments}
use w3c_flo.Node.Dispatch.Fragments.Kept.{fragments-kept}
use w3c_flo.Node.Dispatch.Packets.{
  Packet, incoming_action, incoming_action2, everyone, push_w3gs, packet_actions, action_log,
  action_log-append,
}
use w3c_flo.Node.Dispatch.Shared.{Host, finished, Sh}
use w3c_flo.Node.Dispatch.Shared.Players.{
  IsSound, Leaves, Leaves-same, Leaves-trans, Leaves-sync, SameKeys-refl,
}
use w3c_flo.Node.Dispatch.Shared.Removed.{broadcast-Removes}
use w3c_flo.Node.Dispatch.Lag.Starts.{AnyOn, Starts, handle_lag-Starts}
use w3c_flo.Node.Clock.{Tick}
use w3c_flo.Node.Dispatch.Tick.Delivered.{
  concat, kept-concat, IsMeasured, Delivered, dispatch_action_tick-Delivered,
}
use w3c_flo.Node.Dispatch.Tick.{
  DispatchResult, continue, lagged, publish, publish_slots, publish_fragments, publish_tick,
  hold_tick, send_or_keep, dispatch_action_tick,
}

module _ (H : Host) (now : ℕ) (L : SlabLaws H.slab_ops) where
  -- A state from which some players have left and to whose log the actions have been added.
  abbrev pub Published : List PlayerAction → Sh H now → Sh H now → Type 0
  Published actions s s' = Leaves H now s s' × (action_log s'.obs ≡ action_log s.obs ++ actions)

  Published-trans :
      (xs ys : List PlayerAction) (s s' s'' : Sh H now)
      → Published xs s s'
      → Published ys s' s''
      → Published (xs ++ ys) s s''
  Published-trans xs ys s s' s'' (r, a) (q, b) = (
    Leaves-trans H now s s' s'' r q,
    b ∙ ap (λ l. l ++ ys) a ∙ append_assoc (action_log s.obs) xs ys,
  )

  publish-Published :
      (packet : Packet) (s : Sh H now)
      → IsSound H now s
      → (s' : Sh H now) × (publish H now packet s ≡ finished s')
        × Published (packet_actions packet) s s'
  unfolding publish
  publish-Published packet s v =
      let s1 : Sh H now = record s { obs = s.obs ++ (push_w3gs packet ∷ []) } in
      let told = Leaves-same H now s s1 v (SameKeys-refl H now s.map) refl in
      let (s2, e, r) = broadcast-Removes H now L packet everyone s1 told.sound in
      (
        s2,
        e,
        (
          Leaves-trans H now s s1 s2 told r.leaves,
          r.same_actions
              ∙ action_log-append s.obs (push_w3gs packet ∷ [])
              ∙ ap (λ l. action_log s.obs ++ l) (append-nil (packet_actions packet)),
        ),
      )

  publish_slots-Published :
      (slots : List (List PlayerAction)) (s : Sh H now)
      → IsSound H now s
      → (s' : Sh H now) × (publish_slots H now slots s ≡ finished s')
        × Published (concat slots) s s'
  unfolding publish_slots concat
  publish_slots-Published [] s v = (
    s,
    refl,
    (Leaves-same H now s s v (SameKeys-refl H now s.map) refl, sym (append-nil (action_log s.obs))),
  )
  publish_slots-Published (slot ∷ slots) s v =
      let packet = incoming_action2 (record { time_increment_ms = 0; actions = slot }) in
      let (s1, e1, p1) = publish-Published packet s v in
      let (s2, e2, p2) = publish_slots-Published slots s1 p1.0.sound in
      (s2, rw e1 e2, Published-trans slot (concat slots) s s1 s2 p1 p2)

  publish_tick-Published :
      (t : Tick) (s : Sh H now)
      → IsMeasured t
      → IsSound H now s
      → (s' : Sh H now) × (publish_tick H now t s ≡ finished s') × Published t.actions s s'
  unfolding publish_tick publish_fragments fragments
  publish_tick-Published t s m v =
      let ((slots, last), e, all) = fragments-kept t.actions m.bounded m.small in
      let (s1, e1, p1) = publish_slots-Published slots s v in
      let packet =
        incoming_action (record { time_increment_ms = t.time_increment_ms; actions = last }) in
      let (s2, e2, p2) = publish-Published packet s1 p1.0.sound in
      (
        s2,
        ap
              (λ n.
                publish_fragments H now t.time_increment_ms
                  (fragment (length t.actions) n t.actions) s)
              m.size
            ∙ ap (λ o. publish_fragments H now t.time_increment_ms o s) e
            ∙ rw e1 e2,
        subst (λ l. Published l s s2) (kept-concat slots last ∙ all)
            (Published-trans (concat slots) last s s1 s2 p1 p2),
      )

  Held : Sh H now → Bool × Sh H now → Type 0
  Held s (true, s') = Published [] s s' × AnyOn s.map (keys s'.lagging_player_ids)
  Held s (false, s') = Published [] s s'

  silent :
      (s s' : Sh H now)
      → Leaves H now s s'
      → action_log s'.obs ≡ action_log s.obs
      → Published [] s s'
  silent s s' r a = (r, a ∙ sym (append-nil (action_log s.obs)))

  Starts-Held : (s : Sh H now) (r : Bool × Sh H now) → Starts H now s r → Held s r
  unfolding Held
  Starts-Held s (true, s') (l, a, w) = (silent s s' l a, w)
  Starts-Held s (false, s') (l, a, w) = silent s s' l a

  hold_tick-Held :
      (result : ClockResult) (s : Sh H now)
      → IsSound H now s
      → (r : Bool × Sh H now) × (hold_tick H now result s ≡ finished r) × Held s r
  unfolding hold_tick Held
  hold_tick-Held tick s v =
      ((false, s), refl, silent s s (Leaves-same H now s s v (SameKeys-refl H now s.map) refl) refl)
  hold_tick-Held (lag ids) s v =
      let (r, e, h) = handle_lag-Starts H now ids s L v in (r, e, Starts-Held s r h)

  -- What becomes of a tick.
  abbrev pub Dispatched : Tick → Sh H now → DispatchResult × Sh H now → Type 0
  Dispatched t s (continue, s') = Published t.actions s s'
  Dispatched t s (lagged t', s') =
      (t' ≡ t) × Published [] s s' × AnyOn s.map (keys s'.lagging_player_ids)

  send_or_keep-Dispatched :
      (t : Tick) (s s1 : Sh H now) (r : Bool × Sh H now)
      → IsMeasured t
      → Leaves H now s s1
      → s1.map ≡ s.map
      → s1.obs ≡ s.obs
      → Held s1 r
      → (d : DispatchResult × Sh H now) × (send_or_keep H now t r ≡ finished d) × Dispatched t s d
  unfolding Held send_or_keep
  send_or_keep-Dispatched t s s1 (true, s2) m l k o (p, w) = (
    (lagged t, s2),
    refl,
    (
      refl,
      Published-trans [] [] s s1 s2 (silent s s1 l (ap action_log o)) p,
      subst (λ x. AnyOn x (keys s2.lagging_player_ids)) k w,
    ),
  )
  send_or_keep-Dispatched t s s1 (false, s2) m l k o p =
      let (s3, e, q) = publish_tick-Published t s2 m p.0.sound in
      (
        (continue, s3),
        rw e refl,
        Published-trans [] t.actions s s2 s3
            (Published-trans [] [] s s1 s2 (silent s s1 l (ap action_log o)) p) q,
      )

  -- In a sound state a tick is handled to the end, and the state is sound afterwards. Either all its
  -- actions are sent to the observers, and join the queue of packets of each player that is still on the
  -- map, each once and in their order; or none is sent or queued, the tick is handed back as it is, and a
  -- player that the game waits for is on the map. The tick knows its size, which is below 2 ^ 64, none of
  -- its actions is longer than 1342 bytes, and the tick number is below the last u32.
  pub dispatch_action_tick-Dispatched :
      (t : Tick) (s : Sh H now)
      → IsMeasured t
      → IsSound H now s
      → s.sync.tick + 1 < 2 ^ 32
      → (d : DispatchResult × Sh H now) × (dispatch_action_tick H now t s ≡ finished d)
        × Dispatched t s d
        × Delivered H now t s d
  unfolding dispatch_action_tick
  dispatch_action_tick-Dispatched t s m v l =
      let ((sync, result), e, valid, clocks) =
        clock-IsValid H.slab_ops L s.sync t.time_increment_ms now v.sync_valid l in
      let s1 : Sh H now = record s { sync = sync } in
      let turned =
        Leaves-sync H now s s1 v valid refl
          (clock-players H.slab_ops L s.sync t.time_increment_ms now e) in
      let (r, e1, held) = hold_tick-Held result s1 turned.sound in
      let (d, e2, q) = send_or_keep-Dispatched t s s1 r m turned refl refl held in
      let runs : dispatch_action_tick H now t s ≡ finished d = rw e (rw e1 e2) in
      (d, runs, q, dispatch_action_tick-Delivered H now t s d m runs)
