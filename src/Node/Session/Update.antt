-- ===== src/Node/Session/Update.antt =====
-- crates/node/src/game/mod.rs: `update_player_client_status`, `register_player_stream` and `handle_event`.
-- The lock on the state is held for the whole of an update, so an update is one step here.
use w3c_flo.Common.{ℕ, Bool, true, false, Option, none, some, [], ◌∷◌, ◌++◌, if◌then◌else◌}
use w3c_flo.Common.Maps.{get, insert}
use w3c_flo.Node.Session.Status.{
  NodeGameStatus, created, waiting, running, ended, SlotClientStatus, pending, connected, joined,
  loaded, disconnected, left, SlotClientStatusUpdateSource, node, same_game, same_client,
}
use w3c_flo.Node.Session.{
  PlayerSlot, to_player, game_ended, GameEvent, game_status_change, player_status_change,
  slot_update, full, Error, player_not_found_in_game, player_connection_exists,
  invalid_player_slot_client_status, invalid_client_status_transition, cancelled, host_error,
  HostOps, State, may_change, log, get_status_update_frame, broadcast_status_update, check_game_end,
  check_game_all_joined, check_game_all_loaded,
}

-- The state after a call, and the error that it returns, if any.
abbrev pub Result : Type 0 → Type 0
Result Host = State Host × Option Error

module _ {Host : Type 0} where
  -- The `match` on the status that has just been written to the slot.
  unfoldable pub end_or_load : State Host → State Host
  unfolding check_game_end check_game_all_loaded
  end_or_load s =
      let (over, s') = check_game_end s in
      if over
      then s'
      else if same_game s'.status NodeGameStatus.loading
      then check_game_all_loaded s'
      else s'

  unfoldable pub check_game : SlotClientStatus → State Host → State Host
  unfolding end_or_load check_game_all_joined check_game_all_loaded
  check_game left s = end_or_load s
  check_game disconnected s = end_or_load s
  check_game pending s = s
  check_game connected s = if same_game s.status created then record s { status = waiting } else s
  check_game joined s = if same_game s.status waiting then check_game_all_joined s else s
  check_game SlotClientStatus.loading s = s
  check_game loaded s =
      if same_game s.status NodeGameStatus.loading then check_game_all_loaded s else s

-- `is_open` tells whether a stream still takes frames, `is_working` whether the event worker still runs:
-- sending to either fails otherwise.
module _ {Host : Type 0} (is_open : ℕ → Bool) (is_working : Bool) where
  -- The end of the update: the worker is told of a new status of the game, and all players of the slot's.
  unfoldable pub announce : NodeGameStatus → ℕ → SlotClientStatus → State Host → Result Host
  unfolding broadcast_status_update
  announce game_status player_id next s =
      if same_game s.status game_status
      then (broadcast_status_update (slot_update player_id next none) s, none)
      else if is_working
      then (
        broadcast_status_update (slot_update player_id next (some s.status))
            (record s { tx = s.tx ++ (game_status_change s.status ∷ []) }),
        none,
      )
      else (s, some cancelled)

  -- From the comparison with the slot's status on.
  unfoldable pub change_status :
      SlotClientStatusUpdateSource → ℕ → SlotClientStatus → PlayerSlot → State Host → Result Host
  unfolding may_change check_game announce
  change_status source player_id next slot s =
      let changed = announce s.status player_id next (
        check_game next (record s {
          player_slots = insert player_id (record slot { client_status = next }) s.player_slots;
        })) in
      if same_client next slot.client_status
      then (s, none)
      else if may_change source slot.client_status next
      then changed
      else (s, some (invalid_client_status_transition slot.client_status next))

  -- The node's connection with the player is gone: its stream is dropped.
  unfoldable pub disconnect : ℕ → SlotClientStatus → PlayerSlot → State Host → Result Host
  unfolding change_status
  disconnect player_id next slot s =
      let slot' = record slot { sender = none } in
      let s' = record s { player_slots = insert player_id slot' s.player_slots } in
      if same_client slot.client_status left
      then (s', none)
      else change_status node player_id next slot' s'

  -- The node's connection with the player is there: the player gets the status of all.
  unfoldable pub connect : ℕ → PlayerSlot → State Host → Result Host
  unfolding change_status get_status_update_frame
  connect player_id slot s = elim slot.sender [
    | none ↦ change_status node player_id connected slot s
    | some stream ↦
        if is_open stream
        then change_status node player_id connected slot
            (log (to_player stream (get_status_update_frame s full) ∷ []) s)
        else (s, some cancelled)
  ]

  unfoldable pub update_slot :
      SlotClientStatusUpdateSource → ℕ → SlotClientStatus → PlayerSlot → State Host → Result Host
  unfolding disconnect connect change_status
  update_slot node player_id disconnected slot s = disconnect player_id disconnected slot s
  update_slot node player_id left slot s = disconnect player_id left slot s
  update_slot node player_id connected slot s = connect player_id slot s
  update_slot source player_id next slot s = change_status source player_id next slot s

  unfoldable pub update_player_client_status :
      SlotClientStatusUpdateSource → ℕ → SlotClientStatus → State Host → Result Host
  unfolding update_slot
  update_player_client_status source player_id next s = elim (get player_id s.player_slots) [
    | none ↦ (s, some player_not_found_in_game)
    | some slot ↦ update_slot source player_id next slot s
  ]

module _ (H : HostOps) (is_open : ℕ → Bool) (is_working : Bool) where
  -- The status is the event's, which may be older than the state's.
  unfoldable pub handle_event : GameEvent → State H.Host → Result H.Host
  unfolding update_player_client_status broadcast_status_update
  handle_event (player_status_change player_id status source) s =
      update_player_client_status is_open is_working source player_id status s
  handle_event (game_status_change status) s =
      let s' = broadcast_status_update full (record s { status = status }) in
      elim status [
        | running ↦ (record s' { host = H.start s'.host }, none)
        | ended ↦ (log (game_ended ∷ []) s', none)
        | _ ↦ (s', none)
      ]

  abbrev may_register : SlotClientStatus → Bool
  may_register pending = true
  may_register connected = true
  may_register disconnected = true
  may_register _ = false

  unfoldable pub register_slot : ℕ → PlayerSlot → State H.Host → Result H.Host
  unfolding get_status_update_frame
  register_slot player_id slot s =
      let (host, registered) = H.register player_id (get_status_update_frame s full) s.host in
      let s' = record s { host = host } in
      elim registered [
        | none ↦ (s', some host_error)
        | some stream ↦ (
          record s' {
            player_slots = insert player_id (record slot { sender = some stream }) s.player_slots;
          },
          none,
        )
      ]

  unfoldable pub check_slot : ℕ → PlayerSlot → State H.Host → Result H.Host
  unfolding register_slot
  check_slot player_id slot s = elim slot.sender [
    | some _ ↦ (s, some player_connection_exists)
    | none ↦
        if may_register slot.client_status
        then register_slot player_id slot s
        else (s, some (invalid_player_slot_client_status slot.client_status))
  ]

  unfoldable pub register_player_stream : ℕ → State H.Host → Result H.Host
  unfolding check_slot
  register_player_stream player_id s = elim (get player_id s.player_slots) [
    | none ↦ (s, some player_not_found_in_game)
    | some slot ↦ check_slot player_id slot s
  ]
