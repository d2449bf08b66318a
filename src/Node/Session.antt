-- ===== src/Node/Session.antt =====
-- crates/node/src/game/mod.rs: the status of a game and of its players. `sent` lists what the session has
-- sent, in order; the frames of one broadcast, which are sent at the same time, are in the order of the
-- player ids, the controller's last. A frame is its content: encoding a message to a buffer does not fail.
pub mod Status
pub mod Update
pub mod Steps
pub mod Progress
use w3c_flo.Common.{
  ℕ, Bool, true, false, not, ◌&&◌, ◌||◌, Option, none, some, List, [], ◌∷◌, ◌++◌, ◌==◌,
  if◌then◌else◌,
}
use w3c_flo.Common.Maps.{SortedMap, get, insert}
use Status.*

-- A slot that a player has; `sender` is the id of the player's stream.
pub record PlayerSlot : Type 0 where
  pub team : ℕ
  pub client_status : SlotClientStatus
  pub sender : Option ℕ

pub data Frame : Type 0 where
  node_game_status_update : NodeGameStatus → SortedMap SlotClientStatus → Frame
  client_update_slot_client_status : ℕ → SlotClientStatus → Frame

pub data Sent : Type 0 where
  to_player : ℕ → Frame → Sent
  to_controller : Frame → Sent
  push_game_end : Sent
  game_ended : Sent

-- `GameStatusChange`, or `PlayerStatusChange`.
pub data GameEvent : Type 0 where
  game_status_change : NodeGameStatus → GameEvent
  player_status_change : ℕ → SlotClientStatus → SlotClientStatusUpdateSource → GameEvent

pub data StatusUpdate : Type 0 where
  slot_update : ℕ → SlotClientStatus → Option NodeGameStatus → StatusUpdate
  full : StatusUpdate

pub data Error : Type 0 where
  player_not_found_in_game : Error
  player_connection_exists : Error
  invalid_player_slot_client_status : SlotClientStatus → Error
  invalid_client_status_transition : SlotClientStatus → SlotClientStatus → Error
  cancelled : Error
  host_error : Error

-- The host of the game, which keeps the streams and runs the clock: crates/node/src/game/host/mod.rs.
-- `register`, which takes the status of the game and of all players, gives the id of the new stream, or
-- fails.
pub record HostOps : Type 1 where
  pub Host : Type 0
  pub start : Host → Host
  pub register : ℕ → Frame → Host → Host × Option ℕ

-- The events that the worker has not received yet are in `tx`, the oldest first.
pub record State (Host : Type 0) : Type 0 where
  pub host : Host
  pub status : NodeGameStatus
  pub player_slots : SortedMap PlayerSlot
  pub tx : List GameEvent
  pub sent : List Sent

-- `all` on the values of a map.
unfoldable pub all_slots : (PlayerSlot → Bool) → SortedMap PlayerSlot → Bool
all_slots p [] = true
all_slots p ((_, slot) ∷ slots) = let rest = all_slots p slots in if p slot then rest else false

unfoldable pub client_statuses : SortedMap PlayerSlot → SortedMap SlotClientStatus
client_statuses [] = []
client_statuses ((p, slot) ∷ slots) = (p, slot.client_status) ∷ client_statuses slots

-- The tests of `check_game_end`, `check_game_all_joined` and `check_game_all_loaded` on one slot.
abbrev pub has_left : PlayerSlot → Bool
has_left slot =
    same_client slot.client_status left
    || same_client slot.client_status disconnected
    || slot.team == 24

abbrev pub has_joined : PlayerSlot → Bool
has_joined slot = same_client slot.client_status joined

abbrev pub has_loaded : PlayerSlot → Bool
has_loaded slot =
    same_client slot.client_status loaded
    || same_client slot.client_status disconnected
    || same_client slot.client_status left

-- The transitions that a client may ask for.
unfoldable pub client_may : SlotClientStatus → SlotClientStatus → Bool
client_may from disconnected = false
client_may from left = true
client_may connected joined = true
client_may joined connected = true
client_may joined SlotClientStatus.loading = true
client_may SlotClientStatus.loading loaded = true
client_may _ _ = false

unfoldable pub may_change :
    SlotClientStatusUpdateSource → SlotClientStatus → SlotClientStatus → Bool
unfolding client_may
may_change client from next = client_may from next
may_change node from next = true
may_change controller from next = true

unfoldable pub broadcast : Frame → SortedMap PlayerSlot → List Sent
broadcast frame [] = []
broadcast frame ((_, slot) ∷ slots) =
    let rest = broadcast frame slots in
    elim slot.sender [ none ↦ rest | some stream ↦ to_player stream frame ∷ rest ]

module _ {Host : Type 0} where
  abbrev pub log : List Sent → State Host → State Host
  log messages s = record s { sent = s.sent ++ messages }

  unfoldable pub get_status_update_frame : State Host → StatusUpdate → Frame
  get_status_update_frame s (slot_update p status (some game_status)) =
      node_game_status_update game_status ((p, status) ∷ [])
  get_status_update_frame s (slot_update p status none) = client_update_slot_client_status p status
  get_status_update_frame s full = node_game_status_update s.status (client_statuses s.player_slots)

  unfoldable pub broadcast_status_update : StatusUpdate → State Host → State Host
  unfolding get_status_update_frame broadcast
  broadcast_status_update update s =
      let frame = get_status_update_frame s update in
      log (broadcast frame s.player_slots ++ (to_controller frame ∷ [])) s

  -- `check_game_end` answers whether the game has ended.
  unfoldable pub check_game_end : State Host → Bool × State Host
  check_game_end s =
      if all_slots has_left s.player_slots
      then (true, log (push_game_end ∷ game_ended ∷ []) (record s { status = ended }))
      else (false, s)

  unfoldable pub check_game_all_joined : State Host → State Host
  check_game_all_joined s =
      if all_slots has_joined s.player_slots
      then record s { status = NodeGameStatus.loading }
      else s

  unfoldable pub check_game_all_loaded : State Host → State Host
  check_game_all_loaded s =
      if same_game s.status NodeGameStatus.loading && all_slots has_loaded s.player_slots
      then record s { status = running }
      else s
