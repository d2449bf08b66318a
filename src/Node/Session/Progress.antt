-- ===== src/Node/Session/Progress.antt =====
-- crates/node/src/game/mod.rs: the last player of a kind moves the game on.
use w3c_flo.Common.{
  ℕ, suc, ◌≡◌, refl, subst, ◌∙◌, ◌≢◌, Bool, true, false, none, some, [], ◌∷◌, if_cases, arith, inl,
  inr,
}
use w3c_flo.Common.Maps.{
  SortedMap, get, insert, Above, IsSorted, le_key, has_key-get, get-insert_cases, insert-Above,
}
use w3c_flo.Node.Session.Status.{
  NodeGameStatus, running, ended, SlotClientStatus, loaded, left, SlotClientStatusUpdateSource,
  node, controller, client, same_game, same_client,
}
use w3c_flo.Node.Session.{
  PlayerSlot, State, all_slots, has_left, has_loaded, check_game_end, check_game_all_loaded,
  broadcast_status_update, may_change, client_may,
}
use w3c_flo.Node.Session.Update.{
  end_or_load, check_game, announce, change_status, disconnect, update_slot,
  update_player_client_status, Result,
}
use w3c_flo.Node.Session.Steps.{ForAll}

ForAll-all_slots :
    (p : PlayerSlot → Bool) (low : ℕ) (slots : SortedMap PlayerSlot)
    → Above low slots
    → ForAll (λ slot. p slot ≡ true) slots
    → all_slots p slots ≡ true
unfolding all_slots get
ForAll-all_slots p low [] s f = refl
ForAll-all_slots p low ((j, slot) ∷ slots) s f = ground (
  arith,
  f j slot,
  ForAll-all_slots p (suc j) slots s.1
      (λ k slot' e. f k slot' (ground (arith, le_key k (suc j) slots s.1, has_key-get k slots e))),
)

-- All slots of other players.
abbrev pub Others : (PlayerSlot → Bool) → ℕ → SortedMap PlayerSlot → Type 0
Others p player_id slots =
    (k : ℕ) (slot : PlayerSlot) → player_id ≢ k → get k slots ≡ some slot → p slot ≡ true

Others-all_slots :
    (p : PlayerSlot → Bool) (player_id : ℕ) (slot : PlayerSlot) (slots : SortedMap PlayerSlot)
    → IsSorted slots
    → Others p player_id slots
    → p slot ≡ true
    → all_slots p (insert player_id slot slots) ≡ true
Others-all_slots p player_id slot slots s f h =
    ForAll-all_slots p 0 (insert player_id slot slots)
      (insert-Above player_id 0 slot slots (omega arith) s)
      (λ k slot' e. elim (get-insert_cases player_id k slot slots e) [
        | inl (_, q) ↦ subst (λ x. p x ≡ true) q h
        | inr (ne, e') ↦ f k slot' ne e'
      ])

Others-insert :
    (p : PlayerSlot → Bool) (player_id : ℕ) (slot : PlayerSlot) (slots : SortedMap PlayerSlot)
    → Others p player_id slots
    → Others p player_id (insert player_id slot slots)
Others-insert p player_id slot slots f k slot' ne e =
    elim (get-insert_cases player_id k slot slots e) [
      | inl (q, _) ↦ absurd (ne q)
      | inr (_, e') ↦ f k slot' ne e'
    ]

may_leave :
    (source : SlotClientStatusUpdateSource) (from : SlotClientStatus)
    → may_change source from left ≡ true
unfolding may_change client_may
may_leave node from = refl
may_leave controller from = refl
may_leave client from = refl

module _ {Host : Type 0} (is_open : ℕ → Bool) (is_working : Bool) where
  announce-status :
      (a : NodeGameStatus) (player_id : ℕ) (next : SlotClientStatus) (s : State Host)
      → (announce is_open is_working a player_id next s).0.status ≡ s.status
  unfolding announce broadcast_status_update
  announce-status a player_id next s =
      if_cases (λ (r : Result Host). r.0.status ≡ s.status) (same_game s.status a) _ _ (λ _. refl)
        (λ _.
          if_cases (λ (r : Result Host). r.0.status ≡ s.status) is_working _ _ (λ _. refl)
            (λ _. refl))

  change_status-left :
      (source : SlotClientStatusUpdateSource) (player_id : ℕ) (slot : PlayerSlot) (s : State Host)
      → same_client left slot.client_status ≡ false
      → IsSorted s.player_slots
      → Others has_left player_id s.player_slots
      → (change_status is_open is_working source player_id left slot s).0.status ≡ ended
  unfolding change_status check_game end_or_load check_game_end
  change_status-left source player_id slot s h o f =
      rw (change_status, h, may_leave source slot.client_status)
        (announce-status s.status player_id left _
          ∙ rw
              (Others-all_slots has_left player_id (record slot { client_status = left })
                s.player_slots o f refl)
              refl)

  -- When a player leaves that had not left, and all other players but referees have left or lost the
  -- connection, the game has ended, whoever reports the leave.
  pub update_player_client_status-left :
      (source : SlotClientStatusUpdateSource) (player_id : ℕ) (slot : PlayerSlot) (s : State Host)
      → IsSorted s.player_slots
      → get player_id s.player_slots ≡ some slot
      → same_client left slot.client_status ≡ false
      → Others has_left player_id s.player_slots
      → (update_player_client_status is_open is_working source player_id left s).0.status ≡ ended
  unfolding update_player_client_status update_slot disconnect
  update_player_client_status-left source player_id slot s o e h f =
      rw (update_player_client_status, e) (by_source source)
    where
      cleared : PlayerSlot
      cleared = record slot { sender = none }

      left_before : same_client slot.client_status left ≡ false
      left_before = ground (arith, h)

      by_source :
          (source : SlotClientStatusUpdateSource)
          → (update_slot is_open is_working source player_id left slot s).0.status ≡ ended
      by_source node =
          rw (disconnect, left_before)
            (change_status-left node player_id cleared
              (record s { player_slots = insert player_id cleared s.player_slots }) h
              (insert-Above player_id 0 cleared s.player_slots (omega arith) o)
              (Others-insert has_left player_id cleared s.player_slots f))
      by_source controller = change_status-left controller player_id slot s h o f
      by_source client = change_status-left client player_id slot s h o f

  -- When the client of a player that was loading has loaded, and all other players have loaded, lost the
  -- connection or left, the game runs, if it was loading.
  pub update_player_client_status-loaded :
      (player_id : ℕ) (slot : PlayerSlot) (s : State Host)
      → IsSorted s.player_slots
      → get player_id s.player_slots ≡ some slot
      → slot.client_status ≡ SlotClientStatus.loading
      → s.status ≡ NodeGameStatus.loading
      → Others has_loaded player_id s.player_slots
      → (update_player_client_status is_open is_working client player_id loaded s).0.status
        ≡ running
  unfolding update_player_client_status update_slot change_status check_game check_game_all_loaded
      may_change client_may
  update_player_client_status-loaded player_id slot s o e h g f =
      rw (update_player_client_status, e, change_status, h)
        (announce-status s.status player_id loaded _
          ∙ rw
              (
                g,
                Others-all_slots has_loaded player_id (record slot { client_status = loaded })
                    s.player_slots o f refl,
              )
              refl)
