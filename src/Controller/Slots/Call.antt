-- ===== src/Controller/Slots/Call.antt =====
-- `update_slot_at` as a whole.
use w3c_flo.Common.{
  ℕ, ◌<◌, ◌≡◌, refl, ap, ap₂, subst, sym, ◌∙◌, Bool, false, Option, none, some, List, ltb, ℤ, pos,
  negsuc, eq→eq_ℤ, if_cases, Every-get_elem?, get_elem?, set, arith, get_elem?_of_lt, Outcome, done,
  panic, ◌>>=◌, index,
}
use w3c_flo.Controller.Types.{SlotStatus, SlotSettings, Slot}
use w3c_flo.Controller.Slots.{Slots, no_colors, get_color_set}
use w3c_flo.Controller.Slots.Colors.{IsColor, HasColor, color_set_from-collect}
use w3c_flo.Controller.Slots.Valid.{IsValid, IsValid-set}
use w3c_flo.Controller.Slots.Team.{player_colors, MovesTo, change_team-MovesTo}
use w3c_flo.Controller.Slots.Update.{
  Moved, is_referee, change_status, change_color, change_handicap, update_fields, update_moved,
  updated_slots, team_denied, update_at_index, update_slot_at, change_team,
}
use w3c_flo.Controller.Slots.Fields.{with_settings, new_status, update_fields-Writable}

index_bind {ℓ} :
    {B : Type ℓ} (xs : List Slot) (i : ℕ) (x : Slot) (f : Slot → Outcome B)
    → get_elem? xs i ≡ some x
    → f x ≡ (index xs i >>= f)
index_bind xs i x f e = ground arith

update_moved_runs :
    (s : Slots) (colors : List Bool) (new : SlotSettings) (i : ℕ) (slots : List Slot) (target : ℕ)
    (old slot at_i : Slot)
    → get_elem? slots target ≡ some old
    → update_fields colors new old ≡ done slot
    → get_elem? (set slots target slot) i ≡ some at_i
    → update_moved s colors new i (some (slots, target))
      ≡ done (record s { inner = set slots target slot }, some (updated_slots i target at_i slot))
unfolding update_moved
update_moved_runs s colors new i slots target old slot at_i e runs there =
    ground (arith, e, runs, there)

-- `update_slot_at` on an index in range.
update_moved-IsValid :
    (s : Slots) (new : SlotSettings) (i c : ℕ) (moved : Moved)
    → IsValid s
    → i < 24
    → new.color ≡ pos c
    → MovesTo s moved
    → (s' : Slots) × (r : Option (List (ℤ × Slot))) × (update_moved s (player_colors s) new i moved
        ≡ done (s', r))
      × IsValid s'
unfolding update_moved
update_moved-IsValid s new i c none v l e m = (s, none, refl, v)
update_moved-IsValid s new i c (some (slots, target)) v l e m =
    let (slot, runs, w) = update_fields-Writable s slots target v m new c e in
    let v' = IsValid-set (record s { inner = slots }) target slot m.valid w.0 w.1 in
    let (at_i, there) =
      get_elem?_of_lt (set slots target slot) i (subst (λ n. i < n) (sym v'.size) l) in
    (
      record s { inner = set slots target slot },
      some (updated_slots i target at_i slot),
      update_moved_runs s (player_colors s) new i slots target m.slot slot at_i m.at runs there,
      v',
    )

-- The call returns, with valid slots.
abbrev pub Runs : Outcome (Slots × Option (List (ℤ × Slot))) → Type 0
Runs o = (s' : Slots) × (r : Option (List (ℤ × Slot))) × (o ≡ done (s', r)) × IsValid s'

update_at_index-Runs :
    (s : Slots) (new : SlotSettings) (i c : ℕ)
    → IsValid s
    → i < 24
    → new.color ≡ pos c
    → Runs (update_at_index s (player_colors s) new i)
unfolding update_at_index
update_at_index-Runs s new i c v l e =
    if_cases Runs (team_denied s new) _ _ (λ denied. (s, none, refl, v))
      λ allowed.
        let (slot, there) = get_elem?_of_lt s.inner i (subst (λ n. i < n) (sym v.size) l) in
        subst Runs (index_bind s.inner i slot _ there)
          (update_moved-IsValid s new i c _ v l e (change_team-MovesTo s i slot new.team v there))

-- With any index and any settings whose color is no negative number the update runs to its end: it does
-- not panic, and it leaves the slots valid.
pub update_slot_at-IsValid :
    (s : Slots) (slot_index : ℤ) (new : SlotSettings) (c : ℕ)
    → IsValid s
    → new.color ≡ pos c
    → Runs (update_slot_at s slot_index new)
unfolding update_slot_at get_color_set
update_slot_at-IsValid s (negsuc n) new c v e =
    (s, none, rw (color_set_from-collect s.inner no_colors v.colors), v)
update_slot_at-IsValid s (pos i) new c v e =
    rw (color_set_from-collect s.inner no_colors v.colors) (
      if_cases Runs (ltb 23 i) _ _ (λ out. (s, none, refl, v))
        (λ inside. update_at_index-Runs s new i c v (ground arith) e))

status_kept :
    (colors : List Bool) (new : SlotSettings) (slot : Slot) (st : SlotStatus)
    → slot.settings.status ≡ st
    → new.status ≡ st
    → new_status colors new slot ≡ slot.settings
unfolding change_status
status_kept colors new slot SlotStatus.open_slot a b = ground arith
status_kept colors new slot SlotStatus.closed a b = ground arith
status_kept colors new slot SlotStatus.occupied a b = ground arith

change_color_panic :
    (colors : List Bool) (n : ℕ) (color : ℤ) (old : SlotSettings)
    → old.color ≡ color
    → IsColor color
    → change_color colors (negsuc n) old ≡ panic
unfolding change_color
change_color_panic colors n (pos c) old e h = ground arith
change_color_panic colors n (negsuc c) old e h = absurd h

update_fields_panic :
    (colors : List Bool) (new : SlotSettings) (slot : Slot) (n : ℕ)
    → is_referee slot ≡ false
    → new.status ≡ slot.settings.status
    → HasColor slot
    → new.color ≡ negsuc n
    → update_fields colors new slot ≡ panic
unfolding update_fields
update_fields_panic colors new slot n player status h e =
    let kept = status_kept colors new slot slot.settings.status refl status in
    let color = change_color_panic colors n slot.settings.color slot.settings refl h in
    rw player (
      ap
        (λ m. m >>= λ colored.
          done (
            with_settings slot (record (change_handicap new.handicap colored) { race = new.race })))
        (ap₂ (change_color colors) e kept ∙ color))

update_at_index_panic :
    (s : Slots) (new : SlotSettings) (i : ℕ) (slot : Slot)
    → get_elem? s.inner i ≡ some slot
    → new.team ≡ slot.settings.team
    → team_denied s new ≡ false
    → update_fields (player_colors s) new slot ≡ panic
    → update_at_index s (player_colors s) new i ≡ panic
unfolding update_at_index change_team update_moved
update_at_index_panic s new i slot there team allowed p = rw allowed (
    sym (index_bind s.inner i slot _ there)
    ∙ rw (eq→eq_ℤ new.team slot.settings.team team)
        (sym (index_bind s.inner i slot _ there) ∙ rw p))

-- A negative color that is not the slot's own is used as an index: on any slot of a player team, with
-- its team and its status kept, the update panics.
pub update_slot_at_negative_color :
    (s : Slots) (i n : ℕ) (new : SlotSettings) (slot : Slot)
    → IsValid s
    → i < 24
    → get_elem? s.inner i ≡ some slot
    → is_referee slot ≡ false
    → new.team ≡ slot.settings.team
    → new.status ≡ slot.settings.status
    → team_denied s new ≡ false
    → new.color ≡ negsuc n
    → update_slot_at s (pos i) new ≡ panic
unfolding update_slot_at get_color_set
update_slot_at_negative_color s i n new slot v l there player team status allowed e =
    rw (color_set_from-collect s.inner no_colors v.colors) (
      if_cases (λ o. o ≡ panic) (ltb 23 i) _ _ (λ out. absurd (ground arith))
        (λ inside. update_at_index_panic s new i slot there team allowed (
          update_fields_panic (player_colors s) new slot n player status
            (Every-get_elem? HasColor s.inner i v.colors there) e)))
