-- ===== src/Node/Dispatch/Shared/Players.antt =====
-- crates/node/src/game/host/dispatch.rs: what holds of the state that is shared, and what sending packets
-- may change of it.
use w3c_flo.Common.{ℕ, ◌≡◌, refl, sym, subst, ◌∙◌, ap, Bool, true, false, not, ◌&&◌, [], ◌∷◌, arith}
use w3c_flo.Common.Maps.{SortedMap, has_key, IsSorted}
use w3c_flo.Common.Maps.Keys.{SameKeys, SameKeys-has_key, SameKeys-Above}
use w3c_flo.Node.Sync.Valid.{IsValid}
use w3c_flo.Node.Dispatch.Packets.{Packet, Message, BroadcastTarget, PlayerInfo, action_log}
use w3c_flo.Node.Dispatch.Shared.{Host, Run, finished, Sh, send_all, remove_lag_slots, message_all}

module _ (H : Host) (now : ℕ) where
  pub send_all-SameKeys :
      (target : BroadcastTarget) (packet : Packet) (m : SortedMap PlayerInfo)
      → SameKeys m (send_all H now target packet m).entries
  unfolding send_all
  send_all-SameKeys target packet [] = tt
  send_all-SameKeys target packet ((k, info) ∷ m) = (refl, send_all-SameKeys target packet m)

  pub remove_lag_slots-SameKeys :
      (slot : ℕ) (m : SortedMap PlayerInfo) → SameKeys m (remove_lag_slots H now slot m)
  unfolding remove_lag_slots
  remove_lag_slots-SameKeys slot [] = tt
  remove_lag_slots-SameKeys slot ((k, info) ∷ m) = (refl, remove_lag_slots-SameKeys slot m)

  pub message_all-SameKeys :
      (message : Message) (m : SortedMap PlayerInfo) → SameKeys m (message_all H now message m)
  unfolding message_all
  message_all-SameKeys message [] = tt
  message_all-SameKeys message ((k, info) ∷ m) = (refl, message_all-SameKeys message m)

  -- The players are in order, and the ticks that they acknowledge are well-formed.
  pub record IsSound (s : Sh H now) : Type 0 where
    pub map_sorted : IsSorted s.map
    pub sync_valid : IsValid H.slab_ops s.sync

  -- From the one state to the other players only leave, each from the map and from the ticks at once.
  pub record Leaves (s s' : Sh H now) : Type 0 where
    pub sound : IsSound s'
    pub within : (k : ℕ) → has_key k s'.map ≡ true → has_key k s.map ≡ true
    pub dropped :
        (k : ℕ)
        → has_key k s'.sync.players
          ≡ (has_key k s.sync.players && not (has_key k s.map && not (has_key k s'.map)))

  -- And nothing but the connections, the observers and the delays is changed besides.
  pub record Removes (s s' : Sh H now) : Type 0 where
    pub leaves : Leaves s s'
    pub same_lagging : s'.lagging_player_ids ≡ s.lagging_player_ids
    pub same_votes : s'.drop_votes ≡ s.drop_votes
    pub same_started : s'.started ≡ s.started
    pub same_slots : s'.slot_id_lookup ≡ s.slot_id_lookup
    pub same_actions : action_log s'.obs ≡ action_log s.obs

  abbrev pub EndsWith : (Sh H now → Type 0) → Run (Sh H now) → Type 0
  EndsWith P r = (s' : Sh H now) × (r ≡ finished s') × P s'

  dropped_same : (a b : Bool) → a ≡ (a && not (b && not b))
  dropped_same true true = refl
  dropped_same true false = refl
  dropped_same false b = refl

  -- The players stay, whatever becomes of their connections.
  pub Leaves-same :
      (s s' : Sh H now) → IsSound s → SameKeys s.map s'.map → s'.sync ≡ s.sync → Leaves s s'
  Leaves-same s s' v k y = record {
    sound = record {
      map_sorted = SameKeys-Above 0 s.map s'.map k v.map_sorted;
      sync_valid = subst (λ x. IsValid H.slab_ops x) (sym y) v.sync_valid;
    };
    within = λ j h. SameKeys-has_key j s.map s'.map k ∙ h;
    dropped = λ j.
        ap (λ x. has_key j x.players) y
        ∙ subst
            (λ b.
              has_key j s.sync.players
              ≡ (has_key j s.sync.players && not (has_key j s.map && not b)))
            (SameKeys-has_key j s.map s'.map k) (dropped_same _ _);
  }

  -- The players stay, whatever becomes of their connections.
  pub Removes-same :
      (s s' : Sh H now)
      → IsSound s
      → SameKeys s.map s'.map
      → s'.sync ≡ s.sync
      → s'.lagging_player_ids ≡ s.lagging_player_ids
      → s'.drop_votes ≡ s.drop_votes
      → s'.started ≡ s.started
      → s'.slot_id_lookup ≡ s.slot_id_lookup
      → action_log s'.obs ≡ action_log s.obs
      → Removes s s'
  Removes-same s s' v k y l d t i a = record {
    leaves = Leaves-same s s' v k y;
    same_lagging = l;
    same_votes = d;
    same_started = t;
    same_slots = i;
    same_actions = a;
  }

  dropped_trans :
      (y y' y'' m m' m'' : Bool)
      → (m' ≡ true → m ≡ true)
      → (m'' ≡ true → m' ≡ true)
      → y' ≡ (y && not (m && not m'))
      → y'' ≡ (y' && not (m' && not m''))
      → y'' ≡ (y && not (m && not m''))
  dropped_trans y y' y'' m m' m'' f g e e' = ground (arith, f, g)

  pub Leaves-trans : (s s' s'' : Sh H now) → Leaves s s' → Leaves s' s'' → Leaves s s''
  Leaves-trans s s' s'' r q = record {
    sound = q.sound;
    within = λ k h. r.within k (q.within k h);
    dropped = λ k. dropped_trans _ _ _ _ _ _ (r.within k) (q.within k) (r.dropped k) (q.dropped k);
  }

  pub Removes-trans : (s s' s'' : Sh H now) → Removes s s' → Removes s' s'' → Removes s s''
  Removes-trans s s' s'' r q = record {
    leaves = Leaves-trans s s' s'' r.leaves q.leaves;
    same_lagging = q.same_lagging ∙ r.same_lagging;
    same_votes = q.same_votes ∙ r.same_votes;
    same_started = q.same_started ∙ r.same_started;
    same_slots = q.same_slots ∙ r.same_slots;
    same_actions = q.same_actions ∙ r.same_actions;
  }

  pub SameKeys-refl : (m : SortedMap PlayerInfo) → SameKeys m m
  SameKeys-refl [] = tt
  SameKeys-refl ((k, info) ∷ m) = (refl, SameKeys-refl m)

  -- The players that acknowledge ticks are those on the map.
  abbrev pub IsJoined : Sh H now → Type 0
  IsJoined s = (k : ℕ) → has_key k s.sync.players ≡ has_key k s.map

  joined_step : (y' m m' : Bool) → (m' ≡ true → m ≡ true) → y' ≡ (m && not (m && not m')) → y' ≡ m'
  joined_step y' m m' w e = ground (arith, w)

  pub Leaves-IsJoined : (s s' : Sh H now) → Leaves s s' → IsJoined s → IsJoined s'
  Leaves-IsJoined s s' r j k =
      joined_step _ _ _ (r.within k)
        (r.dropped k ∙ ap (λ b. b && not (has_key k s.map && not (has_key k s'.map))) (j k))

  -- The ticks change, and not who acknowledges them.
  pub Leaves-sync :
      (s s' : Sh H now)
      → IsSound s
      → IsValid H.slab_ops s'.sync
      → s'.map ≡ s.map
      → s'.sync.players ≡ s.sync.players
      → Leaves s s'
  Leaves-sync s s' v y m p = record {
    sound = record { map_sorted = subst IsSorted (sym m) v.map_sorted; sync_valid = y };
    within = λ k h. ap (has_key k) (sym m) ∙ h;
    dropped = λ k.
        ap (has_key k) p
        ∙ subst
            (λ x.
              has_key k s.sync.players
              ≡ (has_key k s.sync.players && not (has_key k s.map && not (has_key k x))))
            (sym m) (dropped_same _ _);
  }
