-- ===== src/Controller/Types.antt =====
-- crates/controller/src/game/types.rs and the player's reference of crates/controller/src/player/types.rs.
-- The ids are only compared, so they are numbers; the settings keep the sign of an i32.
use Prim.Native.String.{String}
use w3c_flo.Common.{
  ℕ, suc, Bool, true, false, Option, none, some, List, [], ◌∷◌, ◌==◌, if◌then◌else◌, ℤ, pos,
}

pub data PlayerSource : Type 0 where
  test b_net api : PlayerSource

pub record PlayerRef : Type 0 where
  pub id : ℕ
  pub name : String
  pub source : PlayerSource
  pub realm : Option String

pub data GameStatus : Type 0 where
  preparing created running ended paused terminated : GameStatus

unfoldable pub is_active : GameStatus → Bool
is_active GameStatus.preparing = true
is_active GameStatus.created = true
is_active GameStatus.running = true
is_active _ = false

pub data NodeGameStatus : Type 0 where
  created waiting loading running ended : NodeGameStatus

-- `From<NodeGameStatus> for GameStatus`.
unfoldable pub from_node : NodeGameStatus → GameStatus
from_node NodeGameStatus.created = GameStatus.created
from_node NodeGameStatus.waiting = GameStatus.created
from_node NodeGameStatus.loading = GameStatus.created
from_node NodeGameStatus.running = GameStatus.running
from_node NodeGameStatus.ended = GameStatus.ended

pub data SlotStatus : Type 0 where
  open_slot closed occupied : SlotStatus

pub data Race : Type 0 where
  human orc night_elf undead random : Race

pub data Computer : Type 0 where
  easy normal insane : Computer

pub data SlotClientStatus : Type 0 where
  pending connected joined loading loaded disconnected left : SlotClientStatus

unfoldable pub still_in_game : SlotClientStatus → Bool
still_in_game SlotClientStatus.left = false
still_in_game _ = true

pub record SlotSettings : Type 0 where
  pub team : ℤ
  pub color : ℤ
  pub computer : Computer
  pub handicap : ℤ
  pub status : SlotStatus
  pub race : Race

-- `SlotSettings::default()`.
abbrev pub default_settings : SlotSettings
default_settings = record {
  team = pos 0;
  color = pos 0;
  computer = Computer.easy;
  handicap = pos 100;
  status = SlotStatus.open_slot;
  race = Race.human;
}

pub record Slot : Type 0 where
  pub player : Option PlayerRef
  pub settings : SlotSettings
  pub client_status : SlotClientStatus

-- `Slot::default()`.
abbrev pub default_slot : Slot
default_slot = record {
  player = none;
  settings = default_settings;
  client_status = SlotClientStatus.pending;
}

abbrev pub is_open : SlotStatus → Bool
is_open SlotStatus.open_slot = true
is_open _ = false

abbrev pub is_occupied : SlotStatus → Bool
is_occupied SlotStatus.occupied = true
is_occupied _ = false

abbrev pub status_eq : SlotStatus → SlotStatus → Bool
status_eq SlotStatus.open_slot SlotStatus.open_slot = true
status_eq SlotStatus.closed SlotStatus.closed = true
status_eq SlotStatus.occupied SlotStatus.occupied = true
status_eq _ _ = false

-- The slot's player has this id.
abbrev pub is_player_id : ℕ → Option PlayerRef → Bool
is_player_id player_id none = false
is_player_id player_id (some p) = p.id == player_id

abbrev pub player_is_some : Option PlayerRef → Bool
player_is_some none = false
player_is_some (some p) = true

-- `Game::find_player_slot_index`.
unfoldable pub find_player_slot_index : ℕ → List Slot → Option ℕ
find_player_slot_index player_id [] = none
find_player_slot_index player_id (slot ∷ slots) =
    let rest = find_player_slot_index player_id slots in
    if is_player_id player_id slot.player
    then some 0
    else elim rest [ none ↦ none | some i ↦ some (suc i) ]
