-- ===== src/Controller/Slots/Colors.antt =====
-- Which colors the scans of the slots set.
use mathlib.Core.Option.{some-injective}
use w3c_flo.Common.{
  ℕ, zero, suc, ◌+◌, ◌≤◌, ◌<◌, ◌≡◌, refl, subst, ◌∙◌, Bool, true, not, ◌&&◌, Option, none, some,
  List, [], ◌∷◌, if◌then◌else◌, ℤ, pos, negsuc, pos_part, eq_ℤ, Every, get_elem?, set, length,
  length-set, done, arith, has, has-set, has-set_self, count, count_true, count_true-set,
}
use w3c_flo.Controller.Types.{Slot, is_open, is_occupied}
use w3c_flo.Controller.Slots.{
  referees, mark_color, color_set_step, color_set_from, Scan, scan_slot, scan_slots, position,
}

-- One of the 24 colors.
abbrev pub IsColor : ℤ → Type 0
IsColor (pos c) = c < 24
IsColor (negsuc c) = ⊥

abbrev pub HasColor : Slot → Type 0
HasColor slot = IsColor slot.settings.color

abbrev pub color_of : Slot → ℕ
color_of slot = pos_part slot.settings.color

pub color_of-lt : (c : ℤ) → IsColor c → pos_part c < 24
color_of-lt (pos c) h = h
color_of-lt (negsuc c) h = absurd h

abbrev pub is_used : Slot → Bool
is_used slot = is_occupied slot.settings.status

-- Taken, and by no referee.
abbrev pub is_player : Slot → Bool
is_player slot = is_used slot && not (eq_ℤ slot.settings.team referees)

-- The colors of the slots that pass the test, added to a set.
module _ (p : Slot → Bool) where
  pub collect : List Slot → List Bool → List Bool
  collect [] colors = colors
  collect (slot ∷ slots) colors =
      collect slots (if p slot then set colors (color_of slot) true else colors)

  pub length-collect :
      (slots : List Slot) (colors : List Bool) → length (collect slots colors) ≡ length colors
  unfolding collect
  length-collect [] colors = refl
  length-collect (slot ∷ slots) colors =
      length-collect slots (if p slot then set colors (color_of slot) true else colors)
      ∙ ground (arith, length-set colors (color_of slot) true)

  has-collect :
      (slots : List Slot) (colors : List Bool) (c : ℕ)
      → has colors c ≡ true
      → has (collect slots colors) c ≡ true
  unfolding collect
  has-collect [] colors c h = h
  has-collect (slot ∷ slots) colors c h =
      has-collect slots (if p slot then set colors (color_of slot) true else colors) c
        (ground (arith, has-set colors (color_of slot) c h))

  has-collect_head :
      (s : Slot) (slots : List Slot) (colors : List Bool)
      → HasColor s
      → length colors ≡ 24
      → p s ≡ true
      → has (collect (s ∷ slots) colors) (color_of s) ≡ true
  unfolding collect
  has-collect_head s slots colors h l q =
      has-collect slots (if p s then set colors (color_of s) true else colors) (color_of s)
        (rw q (has-set_self colors (color_of s) (rw l (color_of-lt s.settings.color h))))

  -- The set holds the color of each slot that passes.
  pub has-collect_at :
      (slots : List Slot) (colors : List Bool) (i : ℕ) {slot : Slot}
      → Every HasColor slots
      → length colors ≡ 24
      → get_elem? slots i ≡ some slot
      → p slot ≡ true
      → has (collect slots colors) (color_of slot) ≡ true
  unfolding collect
  has-collect_at [] colors i h l e q = cc
  has-collect_at (s ∷ slots) colors zero {slot} h l e q =
      subst (λ t. p t ≡ true → has (collect (s ∷ slots) colors) (color_of t) ≡ true)
        (some-injective s slot e) (has-collect_head s slots colors h.0 l) q
  has-collect_at (s ∷ slots) colors (suc i) h l e q =
      has-collect_at slots (if p s then set colors (color_of s) true else colors) i h.1
        (ground (arith, length-set colors (color_of s) true)) e q

  -- Each slot sets one color at most.
  pub count_true-collect :
      (slots : List Slot) (colors : List Bool)
      → count_true (collect slots colors) ≤ count_true colors + count p slots
  unfolding collect
  count_true-collect [] colors = omega arith
  count_true-collect (s ∷ slots) colors = ground (
    arith,
    count_true-collect slots (if p s then set colors (color_of s) true else colors),
    count_true-set colors (color_of s),
  )

pub mark_color_lem :
    (c : ℤ) (colors : List Bool)
    → IsColor c
    → mark_color c colors ≡ done (set colors (pos_part c) true)
unfolding mark_color
mark_color_lem (pos c) colors h = ground arith
mark_color_lem (negsuc c) colors h = absurd h

color_set_step-collect :
    (slot : Slot) (colors : List Bool)
    → HasColor slot
    → color_set_step slot colors
      ≡ done (if is_player slot then set colors (color_of slot) true else colors)
unfolding color_set_step
color_set_step-collect slot colors h = ground (arith, mark_color_lem slot.settings.color colors h)

pub color_set_from-collect :
    (slots : List Slot) (colors : List Bool)
    → Every HasColor slots
    → color_set_from slots colors ≡ done (collect is_player slots colors)
unfolding color_set_from collect
color_set_from-collect [] colors h = refl
color_set_from-collect (s ∷ slots) colors h =
    rw (color_set_step-collect s colors h.0) (color_set_from-collect slots _ h.1)

abbrev pub is_open_slot : Slot → Bool
is_open_slot slot = is_open slot.settings.status

-- What a scan adds to `open_slot_idx`.
abbrev first_open : ℕ → List Slot → Option ℕ → Option ℕ
first_open i slots (some j) = some j
first_open i slots none = elim (position is_open_slot slots) [ none ↦ none | some j ↦ some (i + j) ]

abbrev scan_after : ℕ → Slot → Scan → Scan
scan_after i s scan = record {
  open_slot_idx = first_open i (s ∷ []) scan.open_slot_idx;
  color_set = if is_used s then set scan.color_set (color_of s) true else scan.color_set;
  occupied_player_slots =
      if is_player s then scan.occupied_player_slots + 1 else scan.occupied_player_slots;
}

scan_slot_lem :
    (i : ℕ) (s : Slot) (scan : Scan) → HasColor s → scan_slot i s scan ≡ done (scan_after i s scan)
unfolding scan_slot position
scan_slot_lem i s scan h = ground (arith, mark_color_lem s.settings.color scan.color_set h)

first_open_nil : (i : ℕ) (o : Option ℕ) → first_open i [] o ≡ o
unfolding position
first_open_nil i (some j) = refl
first_open_nil i none = refl

first_open_cons :
    (i : ℕ) (s : Slot) (slots : List Slot) (o : Option ℕ)
    → first_open (suc i) slots (first_open i (s ∷ []) o) ≡ first_open i (s ∷ slots) o
unfolding position
first_open_cons i s slots (some j) = refl
first_open_cons i s slots none = ground arith

-- The whole scan of `acquire_slot_mut`.
pub scan_slots-collect :
    (i : ℕ) (slots : List Slot) (scan : Scan)
    → Every HasColor slots
    → scan_slots i slots scan
      ≡ done (record {
        open_slot_idx = first_open i slots scan.open_slot_idx;
        color_set = collect is_used slots scan.color_set;
        occupied_player_slots = scan.occupied_player_slots + count is_player slots;
      })
unfolding scan_slots collect
scan_slots-collect i [] scan h = ground (arith, first_open_nil i scan.open_slot_idx)
scan_slots-collect i (s ∷ slots) scan h = rw (scan_slot_lem i s scan h.0) (
    scan_slots-collect (suc i) slots (scan_after i s scan) h.1
    ∙ ground (arith, first_open_cons i s slots scan.open_slot_idx))
