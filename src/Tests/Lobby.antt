-- ===== src/Tests/Lobby.antt =====
-- The slots of a lobby for a map with four players.
use w3c_flo.Common.{
  ◌<◌, ◌≤◌, subst, sym, ap, ℕ, ◌≡◌, refl, Option, some, none, pos, negsuc, true, false, Outcome,
  done, panic, get_elem?, arith,
}
use w3c_flo.Controller.Types.{
  Slot, PlayerSource, PlayerRef, SlotStatus, SlotSettings, default_settings,
}
use w3c_flo.Controller.Slots.{
  Slots, new, acquire_slot_mut, join, is_full, is_empty, release_player_slot,
  release_all_player_slots, get_player_ids, get_color_set, from_used, as_used, make_unused_slot,
  find_player_slot,
}
use w3c_flo.Controller.Slots.Update.{
  update_slot_at, update_at_index, update_moved, update_fields, change_team, team_denied,
}
use w3c_flo.Controller.Slots.Valid.{IsValid}
use w3c_flo.Controller.Slots.New.{new-IsValid}
use w3c_flo.Controller.Slots.Acquire.{Acquires, acquire_slot_mut-Acquires}
use w3c_flo.Controller.Slots.Join.{Joins, join-Joins}
use w3c_flo.Controller.Slots.Release.{
  Releases, release_player_slot-IsValid, release_all_player_slots_lem,
}
use w3c_flo.Controller.Slots.Stored.{from_used-as_used}
use w3c_flo.Controller.Slots.Call.{Runs, update_slot_at-IsValid, update_slot_at_negative_color}

program : Unit {0}
unfolding new acquire_slot_mut join is_full is_empty release_player_slot release_all_player_slots
    get_player_ids get_color_set from_used as_used make_unused_slot find_player_slot update_slot_at
    update_at_index update_moved update_fields change_team team_denied
program = tt

abbrev alice : PlayerRef
alice = record { id = 7; name = "alice"; source = PlayerSource.b_net; realm = none }

abbrev inner_of : Outcome (Slots × Option ℕ) → Slots
inner_of (done r) = r.0
inner_of panic = new 0

-- After Alice joined.
abbrev lobby : Slots
lobby = inner_of (join (new 4) alice)

alice_found : find_player_slot lobby 7 ≡ get_elem? lobby.inner 0
unfolding program
alice_found = refl

new-IsValid_example :
    IsValid (new 4)
    × (is_empty (new 4) ≡ true)
    × (is_full (new 4) ≡ false)
    × ((i : ℕ)
        → i < 24
        → (slot : Slot) × (get_elem? (new 4).inner i ≡ some slot)
          × (i < 4 → slot.settings.team ≡ pos 0)
          × (4 ≤ i → slot.settings.team ≡ pos 24))
new-IsValid_example = new-IsValid 4

acquire_slot_mut-Acquires_example :
    (s : Slots) × (idx : ℕ) × (acquire_slot_mut (new 4) ≡ done (s, some idx))
    × Acquires (new 4) s idx
acquire_slot_mut-Acquires_example =
    acquire_slot_mut-Acquires (new 4) (new-IsValid 4).0 (new-IsValid 4).2

join-Joins_example :
    (s : Slots) × (idx : ℕ) × (join (new 4) alice ≡ done (s, some idx)) × Joins (new 4) s alice idx
join-Joins_example = join-Joins (new 4) alice (new-IsValid 4).0 (new-IsValid 4).2

lobby-IsValid : IsValid lobby
lobby-IsValid =
    let (s, idx, e, j) = join-Joins (new 4) alice (new-IsValid 4).0 (new-IsValid 4).2 in
    subst IsValid (sym (ap inner_of e)) j.valid

release_player_slot-IsValid_example :
    IsValid (release_player_slot lobby 7).0 × Releases lobby 7 (release_player_slot lobby 7)
release_player_slot-IsValid_example = release_player_slot-IsValid lobby 7 lobby-IsValid

release_all_player_slots_lem_example :
    IsValid (release_all_player_slots lobby).0
    × ((release_all_player_slots lobby).1 ≡ get_player_ids lobby)
    × (is_empty (release_all_player_slots lobby).0 ≡ true)
release_all_player_slots_lem_example = release_all_player_slots_lem lobby lobby-IsValid

from_used-as_used_example :
    get_elem? (from_used 4 (as_used lobby)).inner 0 ≡ get_elem? lobby.inner 0
unfolding program
from_used-as_used_example =
    from_used-as_used lobby 0
      (record {
        player = some alice;
        settings = record default_settings { status = SlotStatus.occupied };
        client_status = (make_unused_slot 4 0).client_status;
      })
      refl refl

abbrev red : SlotSettings
red = record default_settings { color = pos 3 }

update_slot_at-IsValid_example : Runs (update_slot_at (new 4) (pos 0) red)
update_slot_at-IsValid_example = update_slot_at-IsValid (new 4) (pos 0) red 3 (new-IsValid 4).0 refl

abbrev no_color : SlotSettings
no_color = record default_settings { color = negsuc 0 }

update_slot_at_negative_color_example : update_slot_at (new 4) (pos 0) no_color ≡ panic
unfolding new make_unused_slot team_denied
update_slot_at_negative_color_example =
    update_slot_at_negative_color (new 4) 0 0 no_color (make_unused_slot 4 0) (new-IsValid 4).0
      (omega arith) refl refl refl refl refl refl
