-- ===== src/Controller/Slots/Fields.antt =====
-- The fields that `update_slot_at` writes into a slot.
use w3c_flo.Common.{
  ℕ, ◌<◌, ◌≡◌, refl, subst, sym, ◌∙◌, inl, inr, Bool, true, false, not, ◌&&◌, List, if◌then◌else◌,
  ltb, ℤ, pos, negsuc, eq_ℤ, if_cases, Every-get_elem?, arith, has, Bool-cases, get_elem?_of_lt,
  done,
}
use w3c_flo.Controller.Types.{SlotStatus, SlotSettings, Slot, player_is_some, status_eq}
use w3c_flo.Controller.Slots.{Slots, first_color, no_colors}
use w3c_flo.Controller.Slots.Position.{get_or_of_get_elem?}
use w3c_flo.Controller.Slots.Colors.{IsColor, HasColor, is_player, length-collect}
use w3c_flo.Controller.Slots.Valid.{IsValid, Fits}
use w3c_flo.Controller.Slots.Team.{player_colors, Moves, first_free, free_of_players}
use w3c_flo.Controller.Slots.Update.{
  is_referee, change_status, change_color, change_handicap, update_fields,
}

abbrev pub with_settings : Slot → SlotSettings → Slot
with_settings slot settings = record slot { settings = settings }

-- The color may be written: it is one of the 24, and no other player's.
abbrev pub Writable : List Slot → ℕ → Slot → Type 0
Writable slots i slot = HasColor slot × Fits slots i slot

-- With the color unchanged, and no new player, a slot stays writable.
same_color :
    (slots : List Slot) (i : ℕ) (old new : Slot)
    → new.settings.color ≡ old.settings.color
    → (is_player new ≡ true → is_player old ≡ true)
    → Writable slots i old
    → Writable slots i new
same_color slots i old new e p (h, f) =
    (subst IsColor (sym e) h, λ k t n g pt pn q. f k t n g pt (p pn) (q ∙ e))

abbrev pub new_status : List Bool → SlotSettings → Slot → SlotSettings
new_status colors new slot =
    if player_is_some slot.player then slot.settings else change_status colors new slot.settings

update_fields_referee :
    (colors : List Bool) (new : SlotSettings) (slot : Slot)
    → is_referee slot ≡ true
    → update_fields colors new slot ≡ done slot
unfolding update_fields
update_fields_referee colors new slot h = ground arith

update_fields_player :
    (colors : List Bool) (new : SlotSettings) (slot : Slot) (colored : SlotSettings)
    → is_referee slot ≡ false
    → change_color colors new.color (new_status colors new slot) ≡ done colored
    → update_fields colors new slot
      ≡ done
          (with_settings slot (record (change_handicap new.handicap colored) { race = new.race }))
unfolding update_fields
update_fields_player colors new slot colored h e = rw (h, e)

module _ (s : Slots) (slots : List Slot) (i : ℕ) (v : IsValid s) (m : Moves s slots i) where
  free_color :
      (c : ℕ) (new : Slot)
      → c < 24
      → has (player_colors s) c ≡ false
      → new.settings.color ≡ pos c
      → Writable slots i new
  free_color c new l h e = (
    subst IsColor (sym e) l,
    λ k t n g pt pn q. free_of_players s c k t v h (m.others k t n g pt) pt (q ∙ e),
  )

  current : Writable slots i m.slot
  current = (
    Every-get_elem? HasColor slots i m.valid.colors m.at,
    λ k t n g pt pn. m.valid.distinct k i t m.slot n g m.at pt pn,
  )

  status_case :
      (new : SlotSettings) (st : SlotStatus)
      → new.status ≡ st
      → status_eq m.slot.settings.status st ≡ false
      → Writable slots i
          (with_settings m.slot (change_status (player_colors s) new m.slot.settings))
  unfolding change_status
  status_case new SlotStatus.open_slot e d =
      let slot = with_settings m.slot (change_status (player_colors s) new m.slot.settings) in
      same_color slots i m.slot slot (ground arith) (λ p. ground arith) current
  status_case new SlotStatus.closed e d =
      let slot = with_settings m.slot (change_status (player_colors s) new m.slot.settings) in
      same_color slots i m.slot slot (ground arith) (λ p. ground arith) current
  status_case new SlotStatus.occupied e d =
      let f = first_free s v (m.room (ground arith)) in
      let slot = with_settings m.slot (change_status (player_colors s) new m.slot.settings) in
      free_color (first_color (player_colors s)) slot f.0 f.1 (ground arith)

  status_Writable :
      (new : SlotSettings)
      → Writable slots i
          (with_settings m.slot (change_status (player_colors s) new m.slot.settings))
  unfolding change_status
  status_Writable new = elim (Bool-cases (status_eq m.slot.settings.status new.status)) [
    | inl same ↦
        let slot = with_settings m.slot (change_status (player_colors s) new m.slot.settings) in
        same_color slots i m.slot slot (ground arith) (λ p. ground arith) current
    | inr other ↦ status_case new new.status refl other
  ]

  color_Writable :
      (c : ℕ) (old : SlotSettings)
      → Writable slots i (with_settings m.slot old)
      → (colored : SlotSettings) × (change_color (player_colors s) (pos c) old ≡ done colored)
        × Writable slots i (with_settings m.slot colored)
  unfolding change_color
  color_Writable c old w = elim (Bool-cases (ltb c 24 && not (eq_ℤ old.color (pos c)))) [
    | inr kept ↦ (old, ground arith, w)
    | inl wanted ↦
        let l : c < 24 = ground arith in
        let (taken, e) =
          get_elem?_of_lt (player_colors s) c
            (subst (λ n. c < n) (sym (length-collect is_player s.inner no_colors)) l) in
        elim (Bool-cases taken) [
          | inl yes_taken ↦ (old, ground arith, w)
          | inr free ↦ (
            record old { color = pos c },
            ground arith,
            free_color c (with_settings m.slot (record old { color = pos c })) l
                (get_or_of_get_elem? (player_colors s) c e ∙ free) refl,
          )
        ]
  ]

  handicap_color : (h : ℤ) (old : SlotSettings) → (change_handicap h old).color ≡ old.color
  unfolding change_handicap
  handicap_color (pos h) old = ground arith
  handicap_color (negsuc h) old = refl

  handicap_player :
      (h : ℤ) (old : SlotSettings)
      → is_player (with_settings m.slot (change_handicap h old))
        ≡ is_player (with_settings m.slot old)
  unfolding change_handicap
  handicap_player (pos h) old = ground arith
  handicap_player (negsuc h) old = refl

  -- With a color that is no negative number the fields are written, and the slots stay valid.
  pub update_fields-Writable :
      (new : SlotSettings) (c : ℕ)
      → new.color ≡ pos c
      → (slot : Slot) × (update_fields (player_colors s) new m.slot ≡ done slot)
        × Writable slots i slot
  update_fields-Writable new c e =
      let settings = new_status (player_colors s) new m.slot in
      let w : Writable slots i (with_settings m.slot settings) =
        if_cases (λ x. Writable slots i (with_settings m.slot x)) (player_is_some m.slot.player) _ _
          (λ h. current) (λ h. status_Writable new) in
      let (colored, runs, w') = color_Writable c settings w in
      elim (Bool-cases (is_referee m.slot)) [
        | inl referee ↦
            (m.slot, update_fields_referee (player_colors s) new m.slot referee, current)
        | inr player ↦ (
          with_settings m.slot (record (change_handicap new.handicap colored) { race = new.race }),
          update_fields_player (player_colors s) new m.slot colored player
              (subst (λ z. change_color (player_colors s) z settings ≡ done colored) (sym e) runs),
          same_color slots i (with_settings m.slot colored)
              (with_settings m.slot
                (record (change_handicap new.handicap colored) { race = new.race }))
              (handicap_color new.handicap colored)
              (λ p. sym (handicap_player new.handicap colored) ∙ p) w',
        )
      ]
