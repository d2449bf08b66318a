-- ===== src/Controller/Slots/Update.antt =====
-- crates/controller/src/game/slots.rs: `update_slot_at`.
use w3c_flo.Common.{
  ◌%◌, ◌^◌, ◌-◌, ℕ, ◌-◌, ◌%◌, Bool, not, ◌&&◌, Option, none, some, List, [], ◌∷◌, ltb, leb,
  if◌then◌else◌, ℤ, pos, negsuc, ltb_ℤ, eq_ℤ, set, Outcome, done, panic, ◌>>=◌, index,
}
use w3c_flo.Controller.Types.{
  SlotStatus, Computer, SlotSettings, default_settings, Slot, default_slot, is_open, player_is_some,
  status_eq,
}
use w3c_flo.Controller.Slots.{Slots, referees, position, first_color, get_color_set, update_at}

-- The slots after a team change, and the index of the slot to go on with.
abbrev pub Moved : Type 0
Moved = Option (List Slot × ℕ)

abbrev pub is_referee : Slot → Bool
is_referee slot = eq_ℤ slot.settings.team referees

-- A referee moves to the first open player slot.
unfoldable pub to_players : List Slot → List Bool → ℕ → Slot → ℤ → Moved
unfolding position
to_players slots colors i slot team =
    elim (position (λ s. not (is_referee s) && is_open s.settings.status) slots) [
      | none ↦ none
      | some j ↦ some (
        set
            (update_at slots j (λ s. record s {
              player = slot.player;
              settings = record default_settings {
                team = team;
                status = SlotStatus.occupied;
                color = pos (first_color colors);
              };
            }))
            i (record default_slot { settings = record default_settings { team = referees } }),
        j,
      )
    ]

-- A player moves to the first open referee slot.
unfoldable pub to_referees : List Slot → ℕ → Slot → Moved
unfolding position
to_referees slots i slot = elim (position (λ s. is_referee s && is_open s.settings.status) slots) [
  | none ↦ none
  | some j ↦ some (
    set
        (update_at slots j (λ s. record s {
          player = slot.player;
          settings = record default_settings { team = referees; status = SlotStatus.occupied };
        }))
        i default_slot,
    j,
  )
]

unfoldable pub change_team : List Slot → List Bool → ℕ → Slot → ℤ → Moved
unfolding to_players to_referees
change_team slots colors i slot team =
    if eq_ℤ team slot.settings.team
    then some (slots, i)
    else if is_referee slot && not (eq_ℤ team referees)
    then to_players slots colors i slot team
    else if not (is_referee slot) && eq_ℤ team referees
    then to_referees slots i slot
    else some (set slots i (record slot { settings = record (slot.settings) { team = team } }), i)

-- The status of a slot with no player.
unfoldable pub change_status : List Bool → SlotSettings → SlotSettings → SlotSettings
change_status colors new old = if status_eq old.status new.status then old else elim new.status [
  | SlotStatus.open_slot ↦ record old { status = new.status; computer = Computer.easy }
  | SlotStatus.closed ↦ record old { status = new.status; computer = Computer.easy }
  | SlotStatus.occupied ↦ record old {
    status = new.status;
    color = pos (first_color colors);
    computer = new.computer;
  }
]

-- `if new_color < 24 && slot.settings.color != new_color`, with the index into the set.
unfoldable pub change_color : List Bool → ℤ → SlotSettings → Outcome SlotSettings
change_color colors (pos c) old =
    if ltb c 24 && not (eq_ℤ old.color (pos c))
    then (do taken ← index colors c; done (if taken then old else record old { color = pos c }))
    else done old
change_color colors (negsuc c) old = if eq_ℤ old.color (negsuc c) then done old else panic

-- Rounded down to a multiple of ten; out of range it stays.
unfoldable pub change_handicap : ℤ → SlotSettings → SlotSettings
change_handicap (pos h) old =
    if leb 50 h && leb h 100 then record old { handicap = pos (h - h % 10) } else old
change_handicap (negsuc h) old = old

-- `update other fields`.
unfoldable pub update_fields : List Bool → SlotSettings → Slot → Outcome Slot
unfolding change_status change_color change_handicap
update_fields colors new slot = if is_referee slot then done slot else do
  colored ←
      change_color colors new.color (
        if player_is_some slot.player
        then slot.settings
        else change_status colors new slot.settings)
  done
      (record slot { settings = record (change_handicap new.handicap colored) { race = new.race } })

-- The updated slots with their indexes.
abbrev pub updated_slots : ℕ → ℕ → Slot → Slot → List (ℤ × Slot)
updated_slots i target at_i at_target =
    if eq_ℤ (pos i) (pos target)
    then (pos i, at_i) ∷ []
    else (pos i, at_i) ∷ (pos target, at_target) ∷ []

unfoldable pub update_moved :
    Slots → List Bool → SlotSettings → ℕ → Moved → Outcome (Slots × Option (List (ℤ × Slot)))
update_moved s colors new i none = done (s, none)
update_moved s colors new i (some (slots, target)) = do
  slot ← index slots target
  slot' ← update_fields colors new slot
  at_i ← index (set slots target slot') i
  done (record s { inner = set slots target slot' }, some (updated_slots i target at_i slot'))

-- The team is checked before anything is written.
-- `as i32` of a usize.
abbrev pub as_i32 : ℕ → ℤ
as_i32 n = if ltb (n % 2 ^ 32) (2 ^ 31) then pos (n % 2 ^ 32) else negsuc (2 ^ 32 - 1 - n % 2 ^ 32)

unfoldable pub team_denied : Slots → SlotSettings → Bool
team_denied s new = ltb_ℤ (as_i32 s.map_players) new.team && not (eq_ℤ new.team referees)

unfoldable pub update_at_index :
    Slots → List Bool → SlotSettings → ℕ → Outcome (Slots × Option (List (ℤ × Slot)))
unfolding team_denied
update_at_index s colors new i = if team_denied s new then done (s, none) else do
  slot ← index s.inner i
  update_moved s colors new i (change_team s.inner colors i slot new.team)

unfoldable pub update_slot_at :
    Slots → ℤ → SlotSettings → Outcome (Slots × Option (List (ℤ × Slot)))
update_slot_at s slot_index new = do
  colors ← get_color_set s
  elim slot_index [
    | negsuc _ ↦ done (s, none)
    | pos i ↦ if ltb 23 i then done (s, none) else update_at_index s colors new i
  ]
