-- ===== src/Node/Session/Steps.antt =====
-- crates/node/src/game/mod.rs: how the status of a game moves.
use w3c_flo.Common.{
  ℕ, ◌≤◌, ◌≡◌, ◌⊎◌, refl, sym, subst, Bool, true, ◌&&◌, Option, some, [], ◌∷◌, if_cases, arith,
  Bool-cases, Option-cases, inl, inr,
}
use w3c_flo.Common.Maps.{SortedMap, get, insert}
use w3c_flo.Node.Session.Status.{
  NodeGameStatus, created, waiting, running, ended, SlotClientStatus, pending, connected, joined,
  loaded, disconnected, left, SlotClientStatusUpdateSource, node, controller, client, same_game,
  same_client, same_game-≡, same_client-≡, game_discriminant,
}
use w3c_flo.Node.Session.{
  PlayerSlot, Error, State, all_slots, has_left, has_joined, has_loaded, check_game_end,
  check_game_all_joined, check_game_all_loaded, broadcast_status_update, may_change,
}
use w3c_flo.Node.Session.Update.{
  end_or_load, check_game, announce, change_status, disconnect, connect, update_slot,
  update_player_client_status,
}

-- All slots that a player id finds.
abbrev pub ForAll : (PlayerSlot → Type 0) → SortedMap PlayerSlot → Type 0
ForAll P slots = (k : ℕ) (slot : PlayerSlot) → get k slots ≡ some slot → P slot

all_slots-ForAll :
    (p : PlayerSlot → Bool) (slots : SortedMap PlayerSlot)
    → all_slots p slots ≡ true
    → ForAll (λ slot. p slot ≡ true) slots
unfolding all_slots get
all_slots-ForAll p [] h k slot e = cc
all_slots-ForAll p ((j, s) ∷ slots) h k slot e = ground (arith, all_slots-ForAll p slots _ k slot)

-- A player that has left or lost the connection, or is a referee.
abbrev pub IsGone : PlayerSlot → Type 0
IsGone slot = (slot.client_status ≡ left) ⊎ (slot.client_status ≡ disconnected) ⊎ (slot.team ≡ 24)

abbrev pub IsJoined : PlayerSlot → Type 0
IsJoined slot = slot.client_status ≡ joined

-- A player that has loaded, or will not.
abbrev pub IsSettled : PlayerSlot → Type 0
IsSettled slot =
    (slot.client_status ≡ loaded)
    ⊎ (slot.client_status ≡ disconnected)
    ⊎ (slot.client_status ≡ left)

has_left-IsGone : (slot : PlayerSlot) → has_left slot ≡ true → IsGone slot
has_left-IsGone slot h = elim (Bool-cases (same_client slot.client_status left)) [
  | inl a ↦ inl (same_client-≡ slot.client_status left a)
  | inr a ↦ elim (Bool-cases (same_client slot.client_status disconnected)) [
    | inl b ↦ inr (inl (same_client-≡ slot.client_status disconnected b))
    | inr b ↦ inr (inr (ground (arith, a, b, h)))
  ]
]

has_loaded-IsSettled : (slot : PlayerSlot) → has_loaded slot ≡ true → IsSettled slot
has_loaded-IsSettled slot h = elim (Bool-cases (same_client slot.client_status loaded)) [
  | inl a ↦ inl (same_client-≡ slot.client_status loaded a)
  | inr a ↦ elim (Bool-cases (same_client slot.client_status disconnected)) [
    | inl b ↦ inr (inl (same_client-≡ slot.client_status disconnected b))
    | inr b ↦ inr (inr (same_client-≡ slot.client_status left (ground (arith, a, b, h))))
  ]
]

-- The changes of the status of a game whose slots are then `slots`.
pub data GameStep (slots : SortedMap PlayerSlot) : NodeGameStatus → NodeGameStatus → Type 0 where
  stays : (a : NodeGameStatus) → GameStep slots a a
  connects : GameStep slots created waiting
  all_join : ForAll IsJoined slots → GameStep slots waiting NodeGameStatus.loading
  all_load : ForAll IsSettled slots → GameStep slots NodeGameStatus.loading running
  all_leave : (a : NodeGameStatus) → ForAll IsGone slots → GameStep slots a ended

pub GameStep-le :
    (slots : SortedMap PlayerSlot) (a b : NodeGameStatus)
    → GameStep slots a b
    → game_discriminant a ≤ game_discriminant b
GameStep-le slots a _ (stays _) = omega arith
GameStep-le slots _ _ connects = omega arith
GameStep-le slots _ _ (all_join f) = omega arith
GameStep-le slots _ _ (all_load f) = omega arith
GameStep-le slots created _ (all_leave _ f) = omega arith
GameStep-le slots waiting _ (all_leave _ f) = omega arith
GameStep-le slots NodeGameStatus.loading _ (all_leave _ f) = omega arith
GameStep-le slots running _ (all_leave _ f) = omega arith
GameStep-le slots ended _ (all_leave _ f) = omega arith

module _ {Host : Type 0} where
  -- The slots stay, and the status makes one of the steps.
  abbrev Moves : State Host → State Host → Type 0
  Moves s s' = (s'.player_slots ≡ s.player_slots) × GameStep s.player_slots s.status s'.status

  Moves-refl : (s : State Host) → Moves s s
  Moves-refl s = (refl, stays s.status)

  step_from :
      (s : State Host) (a b : NodeGameStatus)
      → same_game s.status a ≡ true
      → GameStep s.player_slots a b
      → GameStep s.player_slots s.status b
  step_from s a b h g = subst (λ x. GameStep s.player_slots x b) (sym (same_game-≡ s.status a h)) g

  check_game_all_loaded-Moves : (s : State Host) → Moves s (check_game_all_loaded s)
  unfolding check_game_all_loaded
  check_game_all_loaded-Moves s =
      if_cases (Moves s)
        (same_game s.status NodeGameStatus.loading && all_slots has_loaded s.player_slots) _ _
        (λ h. (
          refl,
          step_from s NodeGameStatus.loading running (ground arith) (
              all_load (λ k slot e.
                has_loaded-IsSettled slot
                  (all_slots-ForAll has_loaded s.player_slots (ground arith) k slot e))),
        ))
        (λ _. Moves-refl s)

  check_game_all_joined-Moves :
      (s : State Host) → same_game s.status waiting ≡ true → Moves s (check_game_all_joined s)
  unfolding check_game_all_joined
  check_game_all_joined-Moves s w =
      if_cases (Moves s) (all_slots has_joined s.player_slots) _ _
        (λ h. (
          refl,
          step_from s waiting NodeGameStatus.loading w (
              all_join (λ k slot e.
                same_client-≡ slot.client_status joined
                  (all_slots-ForAll has_joined s.player_slots h k slot e))),
        ))
        (λ _. Moves-refl s)

  end_or_load-Moves : (s : State Host) → Moves s (end_or_load s)
  unfolding end_or_load check_game_end
  end_or_load-Moves s = elim (Bool-cases (all_slots has_left s.player_slots)) [
    | inl h ↦ rw h (
      refl,
      all_leave s.status
          (λ k slot e. has_left-IsGone slot (all_slots-ForAll has_left s.player_slots h k slot e)),
    )
    | inr h ↦ rw h (
        if_cases (Moves s) (same_game s.status NodeGameStatus.loading) _ _
          (λ _. check_game_all_loaded-Moves s) (λ _. Moves-refl s))
  ]

  check_game-Moves : (next : SlotClientStatus) (s : State Host) → Moves s (check_game next s)
  unfolding check_game
  check_game-Moves left s = end_or_load-Moves s
  check_game-Moves disconnected s = end_or_load-Moves s
  check_game-Moves pending s = Moves-refl s
  check_game-Moves connected s =
      if_cases (Moves s) (same_game s.status created) _ _
        (λ h. (refl, step_from s created waiting h connects)) (λ _. Moves-refl s)
  check_game-Moves joined s =
      if_cases (Moves s) (same_game s.status waiting) _ _ (λ h. check_game_all_joined-Moves s h)
        (λ _. Moves-refl s)
  check_game-Moves SlotClientStatus.loading s = Moves-refl s
  check_game-Moves loaded s =
      if_cases (Moves s) (same_game s.status NodeGameStatus.loading) _ _
        (λ _. check_game_all_loaded-Moves s) (λ _. Moves-refl s)

module _ {Host : Type 0} (is_open : ℕ → Bool) (is_working : Bool) where
  -- The status of the game steps from `a`, with the slots as they are after the call.
  abbrev Stepped : NodeGameStatus → State Host × Option Error → Type 0
  Stepped a r = GameStep r.0.player_slots a r.0.status

  announce-Stepped :
      (a : NodeGameStatus) (player_id : ℕ) (next : SlotClientStatus) (s : State Host)
      → GameStep s.player_slots a s.status
      → Stepped a (announce is_open is_working a player_id next s)
  unfolding announce
  announce-Stepped a player_id next s g =
      if_cases (Stepped a) (same_game s.status a) _ _ (λ _. unfold broadcast_status_update in g)
        (λ _.
          if_cases (Stepped a) is_working _ _ (λ _. unfold broadcast_status_update in g) (λ _. g))

  changed_Stepped :
      (player_id : ℕ) (next : SlotClientStatus) (slot : PlayerSlot) (s : State Host)
      → Stepped s.status (
          announce is_open is_working s.status player_id next
            (check_game next (record s { player_slots = insert player_id slot s.player_slots })))
  changed_Stepped player_id next slot s =
      let written = record s { player_slots = insert player_id slot s.player_slots } in
      let (kept, step) = check_game-Moves next written in
      announce-Stepped s.status player_id next (check_game next written)
        (subst (λ x. GameStep x s.status (check_game next written).status) (sym kept) step)

  change_status-Stepped :
      (source : SlotClientStatusUpdateSource) (player_id : ℕ) (next : SlotClientStatus)
      (slot : PlayerSlot) (s : State Host)
      → Stepped s.status (change_status is_open is_working source player_id next slot s)
  unfolding change_status
  change_status-Stepped source player_id next slot s =
      if_cases (Stepped s.status) (same_client next slot.client_status) _ _ (λ _. stays s.status)
        (λ _.
          if_cases (Stepped s.status) (may_change source slot.client_status next) _ _
            (λ _. changed_Stepped player_id next (record slot { client_status = next }) s)
            (λ _. stays s.status))

  disconnect-Stepped :
      (player_id : ℕ) (next : SlotClientStatus) (slot : PlayerSlot) (s : State Host)
      → Stepped s.status (disconnect is_open is_working player_id next slot s)
  unfolding disconnect
  disconnect-Stepped player_id next slot s =
      if_cases (Stepped s.status) (same_client slot.client_status left) _ _ (λ _. stays s.status)
        (λ _. change_status-Stepped node player_id next _ _)

  connect-Stepped :
      (player_id : ℕ) (slot : PlayerSlot) (s : State Host)
      → Stepped s.status (connect is_open is_working player_id slot s)
  unfolding connect
  connect-Stepped player_id slot s = elim (Option-cases slot.sender) [
    | inl e ↦ rw (connect, e) (change_status-Stepped node player_id connected slot s)
    | inr (stream, e) ↦
        rw (connect, e)
          (if_cases (Stepped s.status) (is_open stream) _ _
            (λ _. change_status-Stepped node player_id connected slot _) (λ _. stays s.status))
  ]

  update_slot-Stepped :
      (source : SlotClientStatusUpdateSource) (player_id : ℕ) (next : SlotClientStatus)
      (slot : PlayerSlot) (s : State Host)
      → Stepped s.status (update_slot is_open is_working source player_id next slot s)
  unfolding update_slot
  update_slot-Stepped node player_id disconnected slot s =
      disconnect-Stepped player_id disconnected slot s
  update_slot-Stepped node player_id left slot s = disconnect-Stepped player_id left slot s
  update_slot-Stepped node player_id connected slot s = connect-Stepped player_id slot s
  update_slot-Stepped node player_id pending slot s =
      change_status-Stepped node player_id pending slot s
  update_slot-Stepped node player_id joined slot s =
      change_status-Stepped node player_id joined slot s
  update_slot-Stepped node player_id SlotClientStatus.loading slot s =
      change_status-Stepped node player_id SlotClientStatus.loading slot s
  update_slot-Stepped node player_id loaded slot s =
      change_status-Stepped node player_id loaded slot s
  update_slot-Stepped controller player_id next slot s =
      change_status-Stepped controller player_id next slot s
  update_slot-Stepped client player_id next slot s =
      change_status-Stepped client player_id next slot s

  -- For any source, player and status, an update leaves the status of the game or makes one step: from
  -- created to waiting; from waiting to loading, when all players of the game have joined; from loading
  -- to running, when all have loaded, lost the connection or left; to ended from any status, when all but
  -- the referees have lost the connection or left. The slots meant are those after the update.
  pub update_player_client_status-GameStep :
      (source : SlotClientStatusUpdateSource) (player_id : ℕ) (next : SlotClientStatus)
      (s : State Host)
      → let r = update_player_client_status is_open is_working source player_id next s in
        GameStep r.0.player_slots s.status r.0.status
  unfolding update_player_client_status
  update_player_client_status-GameStep source player_id next s =
      elim (Option-cases (get player_id s.player_slots)) [
        | inl e ↦ rw (update_player_client_status, e) (stays s.status)
        | inr (slot, e) ↦
            rw (update_player_client_status, e) (update_slot-Stepped source player_id next slot s)
      ]
