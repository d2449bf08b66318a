-- ===== src/Node/Dispatch/Lag/Starts.antt =====
-- crates/node/src/game/host/dispatch.rs: `handle_lag` ends, and tells whether there is a player to wait
-- for.
use w3c_flo.Common.{
  ℕ, ◌≡◌, refl, sym, subst, ◌∙◌, Bool, true, false, none, List, [], ◌∷◌, ◌⊎◌, inl, inr, Every,
  Option-cases, Bool-cases, if_cases,
}
use w3c_flo.Common.Maps.{
  SortedMap, get, has_key, insert, IsSorted, keys, extend, has_key-get, get-has_key,
}
use w3c_flo.Common.Maps.Keys.{
  SameKeys, SameKeys-Above, SameKeys-self, SameKeys-trans, insert-SameKeys,
}
use w3c_flo.Node.Player.{start_lag, PlayerSendError}
use w3c_flo.Node.Sync.Slab.{SlabLaws}
use w3c_flo.Node.Dispatch.Packets.{PlayerInfo, action_log, action_log_silent, push_start_lag}
use w3c_flo.Node.Dispatch.Shared.{Host, finished, Sh}
use w3c_flo.Node.Dispatch.Shared.Players.{IsSound, Leaves, Leaves-same, Leaves-trans}
use w3c_flo.Node.Dispatch.Shared.Removed.{handle_player_send_errors-Removes}
use w3c_flo.Node.Dispatch.Lag.{
  LagItem, refresh_items, refresh_lag_packet, send_start_lag, add_lagging, wait_for, handle_lag,
  is_item,
}

pub no_key-get : (k : ℕ) (m : SortedMap PlayerInfo) → get k m ≡ none → has_key k m ≡ false
no_key-get k m e = elim (Bool-cases (has_key k m)) [
  | inl h ↦ let (v, f) = get-has_key k m h in absurd (cc (e, f))
  | inr h ↦ h
]

-- Some of the players is on the map.
abbrev pub AnyOn : SortedMap PlayerInfo → List ℕ → Type 0
AnyOn m [] = ⊥
AnyOn m (id ∷ ids) = (has_key id m ≡ true) ⊎ AnyOn m ids

abbrev NoneOn : SortedMap PlayerInfo → List ℕ → Type 0
NoneOn m ids = Every (λ id. has_key id m ≡ false) ids

-- There is an item exactly when one of the players is on the map.
abbrev Waiting : List LagItem → List ℕ → SortedMap PlayerInfo → Type 0
Waiting [] ids m = NoneOn m ids
Waiting (item ∷ items) ids m = AnyOn m ids

Waiting-skip :
    (items : List LagItem) (id : ℕ) (ids : List ℕ) (m : SortedMap PlayerInfo)
    → has_key id m ≡ false
    → Waiting items ids m
    → Waiting items (id ∷ ids) m
Waiting-skip [] id ids m off w = (off, w)
Waiting-skip (item ∷ items) id ids m off w = inr w

refresh_items-Refreshes :
    (now : ℕ) (ids : List ℕ) (m : SortedMap PlayerInfo)
    → IsSorted m
    → SameKeys m (refresh_items now ids m).1 × Waiting (refresh_items now ids m).0 ids m
unfolding refresh_items
refresh_items-Refreshes now [] m s = (SameKeys-self m, tt)
refresh_items-Refreshes now (id ∷ ids) m s = elim (Option-cases (get id m)) [
  | inl e ↦
      let (same, waiting) = refresh_items-Refreshes now ids m s in
      rw (refresh_items, e) (same, Waiting-skip _ id ids m (no_key-get id m e) waiting)
  | inr (info, e) ↦
      let on = has_key-get id m e in
      let info' = (start_lag now info).1 in
      let step = insert-SameKeys id 0 info' m s on in
      let (same, _) =
        refresh_items-Refreshes now ids (insert id info' m)
          (SameKeys-Above 0 m (insert id info' m) step s) in
      rw (refresh_items, e) (SameKeys-trans m (insert id info' m) _ step same, inl on)
]

module _ (H : Host) (now : ℕ) where
  send_start_lag-SameKeys :
      (items : List LagItem) (m : SortedMap PlayerInfo)
      → SameKeys m (send_start_lag H now items m).0
  unfolding send_start_lag
  send_start_lag-SameKeys items [] = tt
  send_start_lag-SameKeys items ((id, info) ∷ m) =
      let rest = send_start_lag-SameKeys items m in
      if_cases
        (λ (r : SortedMap PlayerInfo × List (ℕ × PlayerSendError)). SameKeys ((id, info) ∷ m) r.0)
        (is_item id items) _ _ (λ _. (refl, rest)) (λ _. (refl, rest))

  -- Whether to wait, and for whom.
  abbrev pub Starts : Sh H now → Bool × Sh H now → Type 0
  Starts s (true, s') =
      Leaves H now s s'
      × (action_log s'.obs ≡ action_log s.obs)
      × AnyOn s.map (keys s'.lagging_player_ids)
  Starts s (false, s') =
      Leaves H now s s'
      × (action_log s'.obs ≡ action_log s.obs)
      × Every (λ id. has_key id s.map ≡ false) (keys s'.lagging_player_ids)

  wait_for-Starts :
      (s s1 : Sh H now) (items : List LagItem)
      → SlabLaws H.slab_ops
      → Leaves H now s s1
      → (action_log s1.obs ≡ action_log s.obs)
      → Waiting items (keys s1.lagging_player_ids) s.map
      → (r : Bool × Sh H now) × (wait_for H now items s1 ≡ finished r) × Starts s r
  unfolding wait_for
  wait_for-Starts s s1 [] L r a w = ((false, s1), refl, (r, a, w))
  wait_for-Starts s s1 (item ∷ more) L r a w =
      let (m, errors) = send_start_lag H now (item ∷ more) s1.map in
      let s2 : Sh H now = record s1 { map = m; drop_votes = [] } in
      let told =
        Leaves-same H now s1 s2 r.sound (send_start_lag-SameKeys (item ∷ more) s1.map) refl in
      let (s3, f, q) = handle_player_send_errors-Removes H now L errors s2 told.sound in
      (
        (true, s3),
        rw f refl,
        (
          Leaves-trans H now s s1 s3 r (Leaves-trans H now s1 s2 s3 told q.leaves),
          q.same_actions ∙ a,
          subst (λ x. AnyOn s.map (keys x)) (sym q.same_lagging) w,
        ),
      )

  -- In a sound state, marking players as lagging ends, in a sound state, and broadcasts no action. The
  -- answer is that the game waits exactly when one of the lagging players is still on the map.
  pub handle_lag-Starts :
      (add_player_ids : List ℕ) (s : Sh H now)
      → SlabLaws H.slab_ops
      → IsSound H now s
      → (r : Bool × Sh H now) × (handle_lag H now add_player_ids s ≡ finished r) × Starts s r
  unfolding refresh_lag_packet add_lagging handle_lag
  handle_lag-Starts ids s L v =
      let lagging = keys (extend ids s.lagging_player_ids) in
      let (same, waiting) = refresh_items-Refreshes now lagging s.map v.map_sorted in
      wait_for-Starts s _ (refresh_items now lagging s.map).0 L
        (Leaves-same H now s (refresh_lag_packet H now (add_lagging H now ids s)).1 v same refl)
        (action_log_silent s.obs (push_start_lag _) refl) waiting
