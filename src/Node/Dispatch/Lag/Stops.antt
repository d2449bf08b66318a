-- ===== src/Node/Dispatch/Lag/Stops.antt =====
-- crates/node/src/game/host/dispatch.rs: `check_stop_lag` finds the players that are back.
use w3c_flo.Common.{
  ℕ, ◌≡◌, ◌↔◌, inl, inr, Bool-cases, refl, sym, ap, ◌∙◌, Bool, true, false, not, ◌&&◌, List, [],
  ◌∷◌, arith, ◌==◌, if◌then◌else◌,
}
use w3c_flo.Common.Maps.{SortedMap, SortedSet, has_key, keys}
use w3c_flo.Common.Maps.Keys.{SameKeys, SameKeys-trans}
use w3c_flo.Node.Sync.Slab.{SlabLaws}
use w3c_flo.Node.Dispatch.Packets.{Packet, PlayerInfo, allow_list, action_log, list_contains}
use w3c_flo.Node.Dispatch.Shared.{Host, finished, Sh}
use w3c_flo.Node.Dispatch.Shared.Players.{
  IsSound, Leaves, Removes, Leaves-same, Leaves-trans, Removes-same, Removes-trans, SameKeys-refl,
}
use w3c_flo.Node.Dispatch.Shared.Removed.{broadcast-Removes}
use w3c_flo.Node.Dispatch.Lag.{
  stop_step, stop_loop, stop_targets, send_stop_lag, is_nil, stop_all, check_stop_lag,
}
use w3c_flo.Node.Dispatch.Lag.Back.{
  is_back, IsBack, is_back-IsBack, Looked, Looked-self, stop_step-Turned,
}

module _ (H : Host) (now : ℕ) where
  -- What the whole loop leaves.
  record Looped (ids : List ℕ) (s s' : Sh H now) : Type 0 where
    looked : Looked H now s s'
    stopped :
        (k : ℕ)
        → has_key k s'.lagging_player_ids
          ≡ (has_key k s.lagging_player_ids && not (list_contains k ids && is_back H now k s))

  Looked-Leaves : (s s' : Sh H now) → IsSound H now s → Looked H now s s' → Leaves H now s s'
  Looked-Leaves s s' v l = Leaves-same H now s s' v l.same_keys l.same_sync

  two_stops :
      (id k : ℕ) (h h1 h2 b b1 c : Bool)
      → h1 ≡ (h && not ((id == k) && b))
      → h2 ≡ (h1 && not (c && b1))
      → b1 ≡ b
      → h2 ≡ (h && not ((if id == k then true else c) && b))
  two_stops id k h h1 h2 b b1 c e f g = ground arith

  stop_loop-Looped :
      (ids : List ℕ) (s : Sh H now) → IsSound H now s → Looped ids s (stop_loop H now ids s).1
  unfolding stop_loop list_contains
  stop_loop-Looped [] s v = record { looked = Looked-self H now s; stopped = λ k. ground arith }
  stop_loop-Looped (id ∷ ids) s v =
      let s1 = (stop_step H now id s).1 in
      let turn = stop_step-Turned H now id s v in
      let rest = stop_loop-Looped ids s1 (Looked-Leaves s s1 v turn.looked).sound in
      record {
        looked = record {
          same_keys = SameKeys-trans s.map s1.map _ turn.looked.same_keys rest.looked.same_keys;
          same_sync = rest.looked.same_sync ∙ turn.looked.same_sync;
          same_log = rest.looked.same_log ∙ turn.looked.same_log;
          same_back = λ k. rest.looked.same_back k ∙ turn.looked.same_back k;
        };
        stopped = λ k.
            two_stops id k _ _ _ _ _ _ (turn.stopped k) (rest.stopped k) (turn.looked.same_back k);
      }

  stop_targets-SameKeys :
      (slot : ℕ) (m : SortedMap PlayerInfo) → SameKeys m (stop_targets H now slot m).1
  unfolding stop_targets
  stop_targets-SameKeys slot [] = tt
  stop_targets-SameKeys slot ((id, info) ∷ m) = (refl, stop_targets-SameKeys slot m)

  module _ (L : SlabLaws H.slab_ops) where
    send_stop_lag-Removes :
        (packets : List (ℕ × Packet)) (s : Sh H now)
        → IsSound H now s
        → (s' : Sh H now) × (send_stop_lag H now packets s ≡ finished s') × Removes H now s s'
    unfolding send_stop_lag
    send_stop_lag-Removes [] s v = (
      s,
      refl,
      Removes-same H now s s v (SameKeys-refl H now s.map) refl refl refl refl refl refl,
    )
    send_stop_lag-Removes ((slot, packet) ∷ packets) s v =
        let (targets, m) = stop_targets H now slot s.map in
        let s1 : Sh H now = record s { map = m } in
        let told =
          Removes-same H now s s1 v (stop_targets-SameKeys slot s.map) refl refl refl refl refl
            refl in
        let (s2, e2, r2) =
          broadcast-Removes H now L packet (allow_list targets) s1 told.leaves.sound in
        let (s3, e3, r3) = send_stop_lag-Removes packets s2 r2.leaves.sound in
        (s3, rw e2 e3, Removes-trans H now s s1 s3 told (Removes-trans H now s1 s2 s3 r2 r3))

    -- The players that lag afterwards, and whether there is none although there was.
    pub record Stops (s : Sh H now) (r : Bool × Sh H now) : Type 0 where
      pub leaves : Leaves H now s r.1
      pub same_log : action_log r.1.obs ≡ action_log s.obs
      pub lagging :
          (k : ℕ)
          → (has_key k r.1.lagging_player_ids ≡ true)
            ↔ ((has_key k s.lagging_player_ids ≡ true) × ¬ IsBack H now k s)
      pub answer : r.0 ≡ (not (is_nil s.lagging_player_ids) && is_nil r.1.lagging_player_ids)

    -- A Boolean answer that some hold against the relation.
    stays_marked :
        (k : ℕ) (s : Sh H now) (after before : Bool)
        → after ≡ (before && not (is_back H now k s))
        → (after ≡ true) ↔ ((before ≡ true) × ¬ IsBack H now k s)
    stays_marked k s after before e =
        let (to, from) = is_back-IsBack H now k s in
        (
          (λ h. (ground (arith, e, h), λ b. absurd (ground (arith, e, h, from b)))),
          (λ (h, n). elim (Bool-cases (is_back H now k s)) [
            | inl back ↦ absurd (n (to back))
            | inr away ↦ ground (arith, e, h, away)
          ]),
        )

    all_keys :
        (k : ℕ) (m : SortedSet) (b : Bool)
        → (has_key k m && not (list_contains k (keys m) && b)) ≡ (has_key k m && not b)
    unfolding has_key list_contains
    all_keys k [] b = refl
    all_keys k ((j, v) ∷ m) b = ground (arith, all_keys k m b)

    no_lagging : (k : ℕ) (m : SortedSet) (b : Bool) → m ≡ [] → has_key k m ≡ (has_key k m && not b)
    unfolding has_key
    no_lagging k [] b e = refl
    no_lagging k (x ∷ m) b e = cc e

    stop_all-Stops :
        (lagging : SortedSet) (s : Sh H now)
        → IsSound H now s
        → s.lagging_player_ids ≡ lagging
        → (r : Bool × Sh H now) × (stop_all H now lagging s ≡ finished r) × Stops s r
    unfolding stop_all
    stop_all-Stops [] s v e = (
      (false, s),
      refl,
      record {
        leaves = Leaves-same H now s s v (SameKeys-refl H now s.map) refl;
        same_log = refl;
        lagging =
            λ k. stays_marked k s _ _ (no_lagging k s.lagging_player_ids (is_back H now k s) e);
        answer = rw e refl;
      },
    )
    stop_all-Stops (x ∷ xs) s v e =
        let (packets, s1) = stop_loop H now (keys (x ∷ xs)) s in
        let loop = stop_loop-Looped (keys (x ∷ xs)) s v in
        let looked = Looked-Leaves s s1 v loop.looked in
        let (s2, f, r) = send_stop_lag-Removes packets s1 looked.sound in
        (
          (is_nil s2.lagging_player_ids, s2),
          rw f refl,
          record {
            leaves = Leaves-trans H now s s1 s2 looked r.leaves;
            same_log = r.same_actions ∙ loop.looked.same_log;
            lagging = λ k. stays_marked k s _ _ (
                ap (has_key k) r.same_lagging
                ∙ loop.stopped k
                ∙ ap
                    (λ m.
                      has_key k s.lagging_player_ids
                      && not (list_contains k (keys m) && is_back H now k s))
                    (sym e)
                ∙ all_keys k s.lagging_player_ids (is_back H now k s));
            answer = rw e refl;
          },
        )

    -- In a sound state the search for the lagging players that are back ends, in a sound state, and
    -- broadcasts no action. A player is marked as lagging afterwards exactly when it was and is not back;
    -- a player is back when it is connected and its tick is that of the game or a later one, or when it
    -- is off the map and has a slot. The answer, on which the clock goes on, is yes exactly when some
    -- player lagged and none does now.
    pub check_stop_lag-Stops :
        (s : Sh H now)
        → IsSound H now s
        → (r : Bool × Sh H now) × (check_stop_lag H now s ≡ finished r) × Stops s r
    unfolding check_stop_lag
    check_stop_lag-Stops s v = stop_all-Stops s.lagging_player_ids s v refl
