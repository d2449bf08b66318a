-- ===== src/Node/Dispatch/Lag/Back.antt =====
-- crates/node/src/game/host/dispatch.rs: a turn of the loop that looks for the lagging players that are
-- back.
use w3c_flo.Common.{
  ℕ, ◌≤◌, ◌↔◌, ◌⊎◌, ◌≡◌, refl, sym, ap, subst, ◌∙◌, Bool, true, false, not, ◌&&◌, Option, none,
  some, inl, inr, arith, ◌==◌, if◌then◌else◌, Option-cases, ℕ_discrete, if_cases,
}
use w3c_flo.Common.Maps.{
  get, has_key, insert, get-insert_self, get-insert_other, has_key-remove, has_key-get,
}
use w3c_flo.Common.Maps.Keys.{SameKeys, SameKeys-self, insert-SameKeys}
use w3c_flo.Node.Player.{end_lag}
use w3c_flo.Node.Sync.{PlayerState, player_pending_ticks}
use w3c_flo.Node.Dispatch.Packets.{PlayerInfo, action_log, action_log_silent, push_end_lag}
use w3c_flo.Node.Dispatch.Shared.{Host, Sh}
use w3c_flo.Node.Dispatch.Shared.Players.{IsSound}
use w3c_flo.Node.Dispatch.Lag.{has_caught_up, stop_at, stop_with, stop_step}

abbrev is_some : Option (ℕ × ℕ) → Bool
is_some none = false
is_some (some x) = true

module _ (H : Host) (now : ℕ) where
  back_at : ℕ → Option PlayerInfo → Sh H now → Bool
  back_at id none s = elim (get id s.slot_id_lookup) [ none ↦ false | some slot ↦ true ]
  back_at id (some info) s = has_caught_up H now id info s

  -- A player need not be waited for: it has left, or it is connected and has acknowledged all ticks.
  unfoldable pub is_back : ℕ → Sh H now → Bool
  unfolding back_at
  is_back id s = back_at id (get id s.map) s

  -- A player need not be waited for: it is connected and its tick is the tick of the game or a later one,
  -- or it has left the map and has a slot.
  abbrev pub IsBack : ℕ → Sh H now → Type 0
  IsBack id s =
      ((info : PlayerInfo) × (stream : ℕ) × (state : PlayerState) × (get id s.map ≡ some info)
        × (info.tx ≡ some stream)
        × (get id s.sync.players ≡ some state)
        × (s.sync.tick ≤ state.tick))
      ⊎ ((slot : ℕ) × (get id s.map ≡ none) × (get id s.slot_id_lookup ≡ some slot))

  tick_reached :
      (info : PlayerInfo) (id : ℕ) (s : Sh H now)
      → has_caught_up H now id info s ≡ true
      → (stream : ℕ) × (state : PlayerState) × (info.tx ≡ some stream)
        × (get id s.sync.players ≡ some state)
        × (s.sync.tick ≤ state.tick)
  unfolding has_caught_up player_pending_ticks
  tick_reached info id s h = ground arith

  reached_tick :
      (info : PlayerInfo) (id : ℕ) (s : Sh H now) {stream : ℕ} {state : PlayerState}
      → info.tx ≡ some stream
      → get id s.sync.players ≡ some state
      → s.sync.tick ≤ state.tick
      → has_caught_up H now id info s ≡ true
  unfolding has_caught_up player_pending_ticks
  reached_tick info id s e f l = ground arith

  left_slot :
      (id : ℕ) (s : Sh H now)
      → back_at id none s ≡ true
      → (slot : ℕ) × (get id s.slot_id_lookup ≡ some slot)
  unfolding back_at
  left_slot id s h = ground arith

  is_back→IsBack : (id : ℕ) (s : Sh H now) → is_back id s ≡ true → IsBack id s
  unfolding is_back back_at
  is_back→IsBack id s h = elim (Option-cases (get id s.map)) [
    | inl e ↦
        let (slot, f) = left_slot id s (ap (λ o. back_at id o s) (sym e) ∙ h) in inr (slot, e, f)
    | inr (info, e) ↦
        let (stream, state, t, f, l) =
          tick_reached info id s (ap (λ o. back_at id o s) (sym e) ∙ h) in
        inl (info, stream, state, e, t, f, l)
  ]

  IsBack→is_back : (id : ℕ) (s : Sh H now) → IsBack id s → is_back id s ≡ true
  unfolding is_back back_at
  IsBack→is_back id s (inl (info, stream, state, e, t, f, l)) =
      ap (λ o. back_at id o s) e ∙ reached_tick info id s t f l
  IsBack→is_back id s (inr (slot, e, f)) = ap (λ o. back_at id o s) e ∙ rw (back_at, f) refl

  pub is_back-IsBack : (id : ℕ) (s : Sh H now) → (is_back id s ≡ true) ↔ IsBack id s
  is_back-IsBack id s = (is_back→IsBack id s, IsBack→is_back id s)

  -- What the search for one player may change, and what it may not.
  pub record Looked (s s' : Sh H now) : Type 0 where
    pub same_keys : SameKeys s.map s'.map
    pub same_sync : s'.sync ≡ s.sync
    pub same_log : action_log s'.obs ≡ action_log s.obs
    pub same_back : (k : ℕ) → is_back k s' ≡ is_back k s

  -- The answer looks at the map, the slots and the ticks only.
  back_at_same :
      (k : ℕ) (o : Option PlayerInfo) (s s' : Sh H now)
      → s'.sync ≡ s.sync
      → s'.slot_id_lookup ≡ s.slot_id_lookup
      → back_at k o s' ≡ back_at k o s
  unfolding back_at has_caught_up
  back_at_same k none s s' y l = rw l refl
  back_at_same k (some info) s s' y l = rw y refl

  is_back-insert :
      (id k : ℕ) (info : PlayerInfo) (s : Sh H now)
      → get id s.map ≡ some info
      → is_back k (record s { map = insert id (end_lag now info).1 s.map }) ≡ is_back k s
  unfolding is_back back_at end_lag has_caught_up
  is_back-insert id k info s e = elim (ℕ_discrete id k) [
    | yes q ↦
        subst (λ j. is_back j s1 ≡ is_back j s) q
          (ap (λ o. back_at id o s1) (get-insert_self id (end_lag now info).1 s.map)
            ∙ sym (ap (λ o. back_at id o s) e))
    | no ne ↦
        ap (λ o. back_at k o s1) (get-insert_other id k (end_lag now info).1 s.map ne)
        ∙ back_at_same k (get k s.map) s s1 refl refl
  ]
    where
      s1 : Sh H now
      s1 = record s { map = insert id (end_lag now info).1 s.map }

  -- What `stop_at` tells and leaves.
  record Looks (id : ℕ) (s : Sh H now) (r : Option (ℕ × ℕ) × Sh H now) : Type 0 where
    looked : Looked s r.1
    lagging : r.1.lagging_player_ids ≡ s.lagging_player_ids
    slots : r.1.slot_id_lookup ≡ s.slot_id_lookup
    found : is_some r.0 ≡ is_back id s

  pub Looked-self : (s : Sh H now) → Looked s s
  Looked-self s = record {
    same_keys = SameKeys-self s.map;
    same_sync = refl;
    same_log = refl;
    same_back = λ k. refl;
  }

  stop_at-Looks :
      (id : ℕ) (o : Option PlayerInfo) (s : Sh H now)
      → IsSound H now s
      → get id s.map ≡ o
      → Looks id s (stop_at H now id o s)
  unfolding stop_at is_back back_at
  stop_at-Looks id none s v e = elim (Option-cases (get id s.slot_id_lookup)) [
    | inl f ↦
        rw (stop_at, f)
          (record {
            looked = Looked-self s;
            lagging = refl;
            slots = refl;
            found = sym (ap (λ o. back_at id o s) e ∙ rw (back_at, f) refl);
          })
    | inr (slot, f) ↦
        rw (stop_at, f)
          (record {
            looked = Looked-self s;
            lagging = refl;
            slots = refl;
            found = sym (ap (λ o. back_at id o s) e ∙ rw (back_at, f) refl);
          })
  ]
  stop_at-Looks id (some info) s v e =
      if_cases (Looks id s) (has_caught_up H now id info s) _ _
        (λ back. record {
          looked = record {
            same_keys = insert-SameKeys id 0 _ s.map v.map_sorted (has_key-get id s.map e);
            same_sync = refl;
            same_log = refl;
            same_back = λ k. is_back-insert id k info s e;
          };
          lagging = refl;
          slots = refl;
          found = sym (ap (λ o. back_at id o s) e ∙ back);
        })
        (λ away. record {
          looked = Looked-self s;
          lagging = refl;
          slots = refl;
          found = sym (ap (λ o. back_at id o s) e ∙ away);
        })

  -- What one turn of the loop leaves.
  pub record Turned (id : ℕ) (s s' : Sh H now) : Type 0 where
    pub looked : Looked s s'
    pub stopped :
        (k : ℕ)
        → has_key k s'.lagging_player_ids
          ≡ (has_key k s.lagging_player_ids && not ((id == k) && is_back k s))

  still_lagging : (id k : ℕ) (h b : Bool) → (id ≡ k → b ≡ false) → h ≡ (h && not ((id == k) && b))
  still_lagging id k h b f = ground (arith, f)

  no_more :
      (id k : ℕ) (h b : Bool)
      → (id ≡ k → b ≡ true)
      → (if id == k then false else h) ≡ (h && not ((id == k) && b))
  no_more id k h b f = ground (arith, f)

  stop_with-Turned :
      (id : ℕ) (s : Sh H now) (r : Option (ℕ × ℕ) × Sh H now)
      → Looks id s r
      → Turned id s (stop_with H now id r).1
  unfolding stop_with is_back
  stop_with-Turned id s (none, s1) l = record {
    looked = l.looked;
    stopped = λ k.
        ap (has_key k) l.lagging
        ∙ still_lagging id k _ _ (λ q. ap (λ j. is_back j s) (sym q) ∙ sym l.found);
  }
  stop_with-Turned id s (some (slot, ms), s1) l = record {
    looked = record {
      same_keys = l.looked.same_keys;
      same_sync = l.looked.same_sync;
      same_log = action_log_silent s1.obs (push_end_lag id) refl ∙ l.looked.same_log;
      same_back = λ k. back_at_same k (get k s1.map) s1 _ refl refl ∙ l.looked.same_back k;
    };
    stopped = λ k.
        has_key-remove id k s1.lagging_player_ids
        ∙ ap (λ x. if id == k then false else has_key k x) l.lagging
        ∙ no_more id k _ _ (λ q. ap (λ j. is_back j s) (sym q) ∙ sym l.found);
  }

  pub stop_step-Turned :
      (id : ℕ) (s : Sh H now) → IsSound H now s → Turned id s (stop_step H now id s).1
  unfolding stop_step
  stop_step-Turned id s v = stop_with-Turned id s _ (stop_at-Looks id (get id s.map) s v refl)
