-- ===== src/Controller/Slots.antt =====
-- crates/controller/src/game/slots.rs: the 24 slots of a lobby. `panic` is an index out of bounds.
pub mod Acquire
pub mod Call
pub mod Colors
pub mod Fields
pub mod Join
pub mod New
pub mod Position
pub mod Release
pub mod Stored
pub mod Team
pub mod Update
pub mod Valid
use w3c_flo.Common.{
  ℕ, zero, suc, ◌+◌, ◌<◌, Bool, true, false, not, ◌&&◌, ◌||◌, Option, none, some, List, [], ◌∷◌,
  ◌==◌, ltb, leb, if◌then◌else◌, ℤ, pos, negsuc, ltb_ℤ, eq_ℤ, length, get_elem?, set, replicate,
  Outcome, done, panic, ◌>>=◌,
}
use w3c_flo.Controller.Types.{
  PlayerRef, SlotStatus, Computer, SlotClientStatus, SlotSettings, default_settings, Slot,
  default_slot, is_open, is_occupied, is_player_id, player_is_some,
}

pub record Slots : Type 0 where
  pub inner : List Slot
  pub map_players : ℕ

pub record UsedSlot : Type 0 where
  pub slot_index : ℤ
  pub settings : SlotSettings
  pub client_status : SlotClientStatus
  pub player : Option PlayerRef

-- Team 24 holds the referees.
abbrev pub referees : ℤ
referees = pos 24

unfoldable pub make_unused_slot : ℕ → ℕ → Slot
make_unused_slot map_players idx = record default_slot {
  settings = record default_settings { team = if leb map_players idx then referees else pos 0 };
}

-- The slots from index `idx` on, `n` of them.
unfoldable pub unused_from : ℕ → ℕ → ℕ → List Slot
unused_from map_players idx zero = []
unused_from map_players idx (suc n) =
    make_unused_slot map_players idx ∷ unused_from map_players (suc idx) n

unfoldable pub new : ℕ → Slots
unfolding unused_from make_unused_slot
new map_players = record { inner = unused_from map_players 0 24; map_players = map_players }

-- The entry of the index map: of several used slots with one index the last stays.
unfoldable pub used_at : ℕ → List UsedSlot → Option UsedSlot
used_at idx [] = none
used_at idx (u ∷ us) =
    let later = used_at idx us in
    elim later [ some v ↦ some v | none ↦ if eq_ℤ u.slot_index (pos idx) then some u else none ]

unfoldable pub slot_or_unused : ℕ → ℕ → Option UsedSlot → Slot
slot_or_unused map_players idx none = make_unused_slot map_players idx
slot_or_unused map_players idx (some used) = record {
  player = used.player;
  settings = used.settings;
  client_status = used.client_status;
}

unfoldable pub used_from : ℕ → List UsedSlot → ℕ → ℕ → List Slot
used_from map_players us idx zero = []
used_from map_players us idx (suc n) =
    slot_or_unused map_players idx (used_at idx us) ∷ used_from map_players us (suc idx) n

unfoldable pub from_used : ℕ → List UsedSlot → Slots
unfolding used_from slot_or_unused used_at make_unused_slot
from_used map_players slots = record {
  inner = used_from map_players slots 0 24;
  map_players = map_players;
}

-- `UsedSlot::from`.
abbrev pub to_used : ℕ → Slot → UsedSlot
to_used index slot = record {
  slot_index = pos index;
  settings = slot.settings;
  client_status = slot.client_status;
  player = slot.player;
}

unfoldable pub as_used_from : ℕ → List Slot → List UsedSlot
as_used_from index [] = []
as_used_from index (slot ∷ slots) =
    let rest = as_used_from (suc index) slots in
    if is_open slot.settings.status then rest else to_used index slot ∷ rest

unfoldable pub as_used : Slots → List UsedSlot
unfolding as_used_from
as_used s = as_used_from 0 s.inner

unfoldable pub player_ids : List Slot → List ℕ
player_ids [] = []
player_ids (slot ∷ slots) = elim slot.player [
  | none ↦ player_ids slots
  | some p ↦ p.id ∷ player_ids slots
]

unfoldable pub get_player_ids : Slots → List ℕ
unfolding player_ids
get_player_ids s = player_ids s.inner

unfoldable pub any_slot : (Slot → Bool) → List Slot → Bool
any_slot p [] = false
any_slot p (slot ∷ slots) = p slot || any_slot p slots

unfoldable pub is_full : Slots → Bool
unfolding any_slot
is_full s = not (any_slot (λ slot. is_open slot.settings.status) s.inner)

unfoldable pub is_empty : Slots → Bool
unfolding any_slot
is_empty s = not (any_slot (λ slot. player_is_some slot.player) s.inner)

-- `iter().position(p)`.
unfoldable pub position {ℓ} : {A : Type ℓ} → (A → Bool) → List A → Option ℕ
position p [] = none
position p (x ∷ xs) =
    let rest = position p xs in
    if p x then some 0 else elim rest [ none ↦ none | some i ↦ some (suc i) ]

unfoldable pub find_player_slot : Slots → ℕ → Option Slot
unfolding position
find_player_slot s player_id =
    elim (position (λ slot. is_player_id player_id slot.player) s.inner) [
      | none ↦ none
      | some i ↦ get_elem? s.inner i
    ]

-- What the loop of `acquire_slot_mut` collects.
pub record Scan : Type 0 where
  pub open_slot_idx : Option ℕ
  pub color_set : List Bool
  pub occupied_player_slots : ℕ

-- `color_set[color as usize] = true`, if `color < 24`.
unfoldable pub mark_color : ℤ → List Bool → Outcome (List Bool)
mark_color (pos c) colors = done (if ltb c 24 then set colors c true else colors)
mark_color (negsuc c) colors = panic

unfoldable pub scan_slot : ℕ → Slot → Scan → Outcome Scan
scan_slot i slot scan = elim slot.settings.status [
  | SlotStatus.occupied ↦ do
    colors ← mark_color slot.settings.color scan.color_set
    done (record scan {
      color_set = colors;
      occupied_player_slots =
          if eq_ℤ slot.settings.team referees
          then scan.occupied_player_slots
          else scan.occupied_player_slots + 1;
    })
  | SlotStatus.open_slot ↦
      done (record scan {
        open_slot_idx = elim scan.open_slot_idx [ none ↦ some i | some j ↦ some j ];
      })
  | SlotStatus.closed ↦ done scan
]

unfoldable pub scan_slots : ℕ → List Slot → Scan → Outcome Scan
scan_slots i [] scan = done scan
scan_slots i (slot ∷ slots) scan = do scan' ← scan_slot i slot scan; scan_slots (suc i) slots scan'

abbrev pub no_colors : List Bool
no_colors = replicate 24 false

abbrev pub scan_start : Scan
scan_start = record { open_slot_idx = none; color_set = no_colors; occupied_player_slots = 0 }

-- The first color that is not set, and 0 if all are.
unfoldable pub first_color : List Bool → ℕ
unfolding position
first_color colors = elim (position not colors) [ none ↦ 0 | some c ↦ c ]

-- The slot that is handed out.
unfoldable pub acquired : ℕ → Scan → Slot → Slot
acquired map_players scan slot =
    let is_referee = leb map_players scan.occupied_player_slots in
    record slot {
      settings = record (slot.settings) {
        team = if is_referee then referees else pos scan.occupied_player_slots;
        color = if is_referee then pos 0 else pos (first_color scan.color_set);
        status = SlotStatus.occupied;
        computer = Computer.easy;
      };
    }

-- What is done once the slots are scanned.
unfoldable pub acquire_scanned : Slots → Scan → Outcome (Slots × Option ℕ)
unfolding acquired first_color
acquire_scanned s scan = elim scan.open_slot_idx [
  | none ↦ done (s, none)
  | some idx ↦ elim (get_elem? s.inner idx) [
    | none ↦ panic
    | some slot ↦
        done (record s { inner = set s.inner idx (acquired s.map_players scan slot) }, some idx)
  ]
]

-- The slots after the call, and the index of the slot that was acquired.
unfoldable pub acquire_slot_mut : Slots → Outcome (Slots × Option ℕ)
unfolding scan_slots scan_slot mark_color acquire_scanned
acquire_slot_mut s = scan_slots 0 s.inner scan_start >>= acquire_scanned s

abbrev pub update_at : List Slot → ℕ → (Slot → Slot) → List Slot
update_at slots i f = elim (get_elem? slots i) [ none ↦ slots | some slot ↦ set slots i (f slot) ]

unfoldable pub join : Slots → PlayerRef → Outcome (Slots × Option ℕ)
unfolding acquire_slot_mut
join s player = do
  (s', idx) ← acquire_slot_mut s
  elim idx [
    | none ↦ done (s', none)
    | some i ↦ done (
      record s' { inner = update_at s'.inner i (λ slot. record slot { player = some player }) },
      some i,
    )
  ]

unfoldable pub release_player_slot : Slots → ℕ → Slots × Bool
unfolding position
release_player_slot s player_id =
    elim (position (λ slot. is_player_id player_id slot.player) s.inner) [
      | none ↦ (s, false)
      | some i ↦ (record s { inner = set s.inner i default_slot }, true)
    ]

-- The loop of `release_all_player_slots`.
unfoldable pub release_all : List Slot → List Slot × List ℕ
release_all [] = ([], [])
release_all (slot ∷ slots) =
    let (slots', ids) = release_all slots in
    elim slot.player [ none ↦ (slot ∷ slots', ids) | some p ↦ (default_slot ∷ slots', p.id ∷ ids) ]

unfoldable pub release_all_player_slots : Slots → Slots × List ℕ
unfolding release_all
release_all_player_slots s =
    let (slots, ids) = release_all s.inner in (record s { inner = slots }, ids)

unfoldable pub color_set_step : Slot → List Bool → Outcome (List Bool)
unfolding mark_color
color_set_step slot colors =
    if is_occupied slot.settings.status && not (eq_ℤ slot.settings.team referees)
    then mark_color slot.settings.color colors
    else done colors

unfoldable pub color_set_from : List Slot → List Bool → Outcome (List Bool)
color_set_from [] colors = done colors
color_set_from (slot ∷ slots) colors = do
  colors' ← color_set_step slot colors
  color_set_from slots colors'

unfoldable pub get_color_set : Slots → Outcome (List Bool)
unfolding color_set_from color_set_step
get_color_set s = color_set_from s.inner no_colors
