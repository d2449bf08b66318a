-- ===== src/Node/Dispatch/Packets.antt =====
-- crates/node/src/game/host/dispatch.rs and broadcast.rs: the packets that a game sends, and to whom. A
-- packet is its payload; none of them is longer than a packet may be, so that it can always be built. A
-- chat message stands for its text.
use w3c_flo.Common.{
  ℕ, Bool, true, false, not, Option, none, some, List, [], ◌∷◌, ◌++◌, ◌==◌, ◌≡◌, refl, ap, ◌∙◌,
  if◌then◌else◌,
}
use mathlib.Core.List.{append_assoc, append-nil}
use w3c_flo.W3gs.Action.{PlayerAction, TimeSlot}
use w3c_flo.Node.Player.{Info}
use w3c_flo.Node.Player

pub data LeaveReason : Type 0 where
  leave_disconnect leave_lost leave_lost_buildings leave_won leave_draw : LeaveReason
  leave_observer leave_invalid_save_game leave_lobby : LeaveReason
  unknown_value : ℕ → LeaveReason

pub record LagPlayer : Type 0 where
  pub player_id : ℕ
  pub lag_duration_ms : ℕ

-- A player is named by its id.
pub data Message : Type 0 where
  drop_vote : ℕ → ℕ → Message
  desync_detected : ℕ → ℕ → ℕ → Message
  reconnected : ℕ → Message
  step_set : ℕ → Message

pub data PacketTypeId : Type 0 where
  incoming_action_id incoming_action2_id player_left_id start_lag_id stop_lag_id : PacketTypeId
  chat_from_host_id leave_ack_id : PacketTypeId

-- `chat_from_player` is a packet that a player sent, passed on.
pub data Packet : Type 0 where
  incoming_action : TimeSlot → Packet
  incoming_action2 : TimeSlot → Packet
  player_left : ℕ → LeaveReason → Packet
  start_lag : List LagPlayer → Packet
  stop_lag : LagPlayer → Packet
  chat_from_host : ℕ → Message → Packet
  chat_from_player : List ℕ → Packet
  leave_ack : Packet

unfoldable pub packet_type_id : Packet → PacketTypeId
packet_type_id (incoming_action slot) = incoming_action_id
packet_type_id (incoming_action2 slot) = incoming_action2_id
packet_type_id (player_left slot reason) = player_left_id
packet_type_id (start_lag players) = start_lag_id
packet_type_id (stop_lag player) = stop_lag_id
packet_type_id (chat_from_host slot message) = chat_from_host_id
packet_type_id (chat_from_player payload) = chat_from_host_id
packet_type_id leave_ack = leave_ack_id

-- What the observer publisher is told of the game.
pub data ObserverEvent : Type 0 where
  push_w3gs : Packet → ObserverEvent
  push_start_lag : List ℕ → ObserverEvent
  push_end_lag : ℕ → ObserverEvent
  push_tick_checksum : ℕ → ℕ → ObserverEvent

pub data BroadcastTarget : Type 0 where
  everyone : BroadcastTarget
  allow_list : List ℕ → BroadcastTarget
  deny_list : List ℕ → BroadcastTarget

unfoldable pub list_contains : ℕ → List ℕ → Bool
list_contains k [] = false
list_contains k (j ∷ js) = if j == k then true else list_contains k js

unfoldable pub target_contains : BroadcastTarget → ℕ → Bool
unfolding list_contains
target_contains everyone player_id = true
target_contains (allow_list ids) player_id = list_contains player_id ids
target_contains (deny_list ids) player_id = not (list_contains player_id ids)

abbrev pub unwrap_reason : Option LeaveReason → LeaveReason
unwrap_reason none = leave_disconnect
unwrap_reason (some reason) = reason

abbrev pub PlayerInfo : Type 0
PlayerInfo = Info PacketTypeId Packet

abbrev pub W3gsFrame : Type 0
W3gsFrame = Player.Frame PacketTypeId Packet

-- The actions in a packet.
abbrev pub packet_actions : Packet → List PlayerAction
packet_actions (incoming_action slot) = slot.actions
packet_actions (incoming_action2 slot) = slot.actions
packet_actions (player_left slot reason) = []
packet_actions (start_lag players) = []
packet_actions (stop_lag player) = []
packet_actions (chat_from_host slot message) = []
packet_actions (chat_from_player payload) = []
packet_actions leave_ack = []

abbrev pub event_actions : ObserverEvent → List PlayerAction
event_actions (push_w3gs packet) = packet_actions packet
event_actions (push_start_lag ids) = []
event_actions (push_end_lag id) = []
event_actions (push_tick_checksum tick checksum) = []

-- The actions that the observers have been told of.
abbrev pub action_log : List ObserverEvent → List PlayerAction
action_log [] = []
action_log (e ∷ es) = event_actions e ++ action_log es

pub action_log-append :
    (xs ys : List ObserverEvent) → action_log (xs ++ ys) ≡ action_log xs ++ action_log ys
action_log-append [] ys = refl
action_log-append (x ∷ xs) ys = simp (action_log-append xs ys, append_assoc)

-- An event without actions adds none.
pub action_log_silent :
    (es : List ObserverEvent) (e : ObserverEvent)
    → event_actions e ≡ []
    → action_log (es ++ (e ∷ [])) ≡ action_log es
action_log_silent es e h =
    action_log-append es (e ∷ [])
    ∙ ap (λ x. action_log es ++ (x ++ [])) h
    ∙ append-nil (action_log es)
