-- ===== src/Node/Dispatch/Lag/Drops.antt =====
-- crates/node/src/game/host/dispatch.rs: the votes, and the players that are dropped by them.
use w3c_flo.Common.{
  ℕ, ◌+◌, ◌*◌, ◌≤◌, ◌<◌, ◌≡◌, refl, ◌∙◌, ap, subst, false, none, List, [], ◌∷◌, length, arith, ◌==◌,
  leb, Every, Bool-cases, inl, inr, if_cases,
}
use w3c_flo.Common.Maps.{has_key, insert, keys}
use w3c_flo.Node.Sync.Slab.{SlabLaws}
use w3c_flo.Node.Dispatch.Packets.{drop_vote, action_log}
use w3c_flo.Node.Dispatch.Shared.{Host, finished, Sh, broadcast_message}
use w3c_flo.Node.Dispatch.Shared.Players.{
  IsSound, Leaves, Removes, EndsWith, Removes-same, Leaves-same, Leaves-trans, Removes-trans,
  SameKeys-refl,
}
use w3c_flo.Node.Dispatch.Shared.Removed.{
  remove_player_and_broadcast-Removes, broadcast_message-Removes,
}
use w3c_flo.Node.Dispatch.Lag.{
  RequestDropResult, no_lagging_player, voting, dropped, drop_players, drop_all_lag_players,
  vote_required, cast_vote, request_drop,
}

module _ (H : Host) (now : ℕ) (L : SlabLaws H.slab_ops) where
  abbrev pub IsOff : Sh H now → ℕ → Type 0
  IsOff s id = has_key id s.map ≡ false

  stays-IsOff : (s s' : Sh H now) (id : ℕ) → Leaves H now s s' → IsOff s id → IsOff s' id
  stays-IsOff s s' id r h = elim (Bool-cases (has_key id s'.map)) [
    | inl on ↦ absurd (cc (h, r.within id on))
    | inr off ↦ off
  ]

  drop_players-Removes :
      (ids : List ℕ) (s : Sh H now)
      → IsSound H now s
      → EndsWith H now (λ s'. Removes H now s s' × Every (IsOff s') ids) (drop_players H now ids s)
  unfolding drop_players
  drop_players-Removes [] s v = (
    s,
    refl,
    (Removes-same H now s s v (SameKeys-refl H now s.map) refl refl refl refl refl refl, tt),
  )
  drop_players-Removes (id ∷ ids) s v =
      let (s1, e1, (r1, off)) = remove_player_and_broadcast-Removes H now L id none s v in
      let (s2, e2, (r2, all)) = drop_players-Removes ids s1 r1.leaves.sound in
      (s2, rw e1 e2, (Removes-trans H now s s1 s2 r1 r2, (stays-IsOff s1 s2 id r2.leaves off, all)))

  -- All players that lagged are off the map, no player lags, and the votes are kept.
  pub record Drops (s s' : Sh H now) : Type 0 where
    pub leaves : Leaves H now s s'
    pub gone : Every (IsOff s') (keys s.lagging_player_ids)
    pub none_lags : s'.lagging_player_ids ≡ []
    pub same_votes : s'.drop_votes ≡ s.drop_votes
    pub same_log : action_log s'.obs ≡ action_log s.obs

  -- In a sound state, dropping the lagging players ends. All of them are off the map then, no player is
  -- marked as lagging, and the state is sound; the players left are some of those before.
  pub drop_all_lag_players-Drops :
      (s : Sh H now) → IsSound H now s → EndsWith H now (Drops s) (drop_all_lag_players H now s)
  unfolding drop_all_lag_players
  drop_all_lag_players-Drops s v =
      let (s1, e, (r, all)) = drop_players-Removes (keys s.lagging_player_ids) s v in
      let s2 : Sh H now = record s1 { lagging_player_ids = [] } in
      (
        s2,
        rw e refl,
        record {
          leaves =
              Leaves-trans H now s s1 s2 r.leaves
                (Leaves-same H now s1 s2 r.leaves.sound (SameKeys-refl H now s1.map) refl);
          gone = all;
          none_lags = refl;
          same_votes = r.same_votes;
          same_log = r.same_actions;
        },
      )

  cast_vote-Leaves :
      (player_id : ℕ) (s : Sh H now)
      → IsSound H now s
      → Leaves H now s (cast_vote H now player_id s)
  unfolding cast_vote
  cast_vote-Leaves player_id s v =
      let s1 : Sh H now = record s { drop_votes = insert player_id tt s.drop_votes } in
      let r = Leaves-same H now s s1 v (SameKeys-refl H now s.map) refl in
      if_cases (Leaves H now s) (has_key player_id s.drop_votes) _ _ (λ _. r)
        (λ _.
          Leaves-trans H now s s1 _ r
            (broadcast_message-Removes H now L (drop_vote _ _) s1 r.sound).leaves)

  cast_vote_lem :
      (player_id : ℕ) (s : Sh H now)
      → ((cast_vote H now player_id s).drop_votes ≡ insert player_id tt s.drop_votes)
        × ((cast_vote H now player_id s).lagging_player_ids ≡ s.lagging_player_ids)
  unfolding cast_vote broadcast_message
  cast_vote_lem player_id s =
      if_cases
        (λ (t : Sh H now).
          (t.drop_votes ≡ insert player_id tt s.drop_votes)
          × (t.lagging_player_ids ≡ s.lagging_player_ids))
        (has_key player_id s.drop_votes) _ _ (λ _. (refl, refl)) (λ _. (refl, refl))

  -- The answer to a vote, and what it says of the state before and after.
  abbrev pub Answers : ℕ → Sh H now → RequestDropResult × Sh H now → Type 0
  Answers player_id s (no_lagging_player, s') = (length s.lagging_player_ids ≡ 0) × (s' ≡ s)
  Answers player_id s (voting, s') =
      Leaves H now s s'
      × (0 < length s.lagging_player_ids)
      × (s'.drop_votes ≡ insert player_id tt s.drop_votes)
      × (2 * length s'.drop_votes + length s.lagging_player_ids < length s.map)
      × (s'.lagging_player_ids ≡ s.lagging_player_ids)
  Answers player_id s (dropped, s') =
      Leaves H now s s'
      × (0 < length s.lagging_player_ids)
      × (s'.drop_votes ≡ insert player_id tt s.drop_votes)
      × (length s.map ≤ 2 * length s'.drop_votes + length s.lagging_player_ids)
      × (s'.lagging_player_ids ≡ [])
      × Every (IsOff s') (keys s.lagging_player_ids)

  -- In a sound state, a vote to drop the lagging players ends. Nothing happens if no player lags. Else
  -- the vote is counted, once for each player id, whoever it is. When twice the number of votes is at
  -- least the number of players on the map less that of the players marked as lagging, all lagging
  -- players are dropped, and else none is.
  pub request_drop-Answers :
      (player_id : ℕ) (s : Sh H now)
      → IsSound H now s
      → (r : RequestDropResult × Sh H now) × (request_drop H now player_id s ≡ finished r)
        × Answers player_id s r
  unfolding request_drop
  request_drop-Answers player_id s v =
      let s1 = cast_vote H now player_id s in
      let (votes, lagging) = cast_vote_lem player_id s in
      let leaves = cast_vote-Leaves player_id s v in
      let (s2, e, d) = drop_all_lag_players-Drops s1 leaves.sound in
      if_cases (λ r. (a : RequestDropResult × Sh H now) × (r ≡ finished a) × Answers player_id s a)
        (length s.lagging_player_ids == 0) _ _
        (λ none_lags. ((no_lagging_player, s), refl, (ground (arith, none_lags), refl)))
        (λ some_lags.
          if_cases
            (λ r. (a : RequestDropResult × Sh H now) × (r ≡ finished a) × Answers player_id s a)
            (leb (vote_required H now s) (length s1.drop_votes)) _ _
            (λ enough. (
              (dropped, s2),
              rw e refl,
              (
                Leaves-trans H now s s1 s2 leaves d.leaves,
                ground (arith, some_lags),
                d.same_votes ∙ votes,
                ground (arith, enough, ap length d.same_votes),
                d.none_lags,
                subst (λ l. Every (IsOff s2) (keys l)) lagging d.gone,
              ),
            ))
            (λ short. (
              (voting, s1),
              refl,
              (leaves, ground (arith, some_lags), votes, ground (arith, short), lagging),
            )))
