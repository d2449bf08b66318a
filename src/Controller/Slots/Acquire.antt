-- ===== src/Controller/Slots/Acquire.antt =====
-- `acquire_slot_mut` hands out the first open slot, under a free color.
use w3c_flo.Common.{
  ℕ, ◌+◌, ◌≤◌, ◌<◌, ◌≡◌, ◌≢◌, refl, ap, subst, ◌∙◌, inl, inr, Bool, true, false, Option, none, some,
  List, [], ◌∷◌, if◌then◌else◌, leb, pos, pos_part, get_elem?, set, length, done, ◌>>=◌, arith, has,
  count, count_true, count-lt-length, Option-cases,
}
use w3c_flo.Controller.Types.{Slot}
use w3c_flo.Controller.Slots.{
  Slots, Scan, referees, any_slot, is_full, position, first_color, no_colors, acquired,
  acquire_scanned, acquire_slot_mut, scan_start,
}
use w3c_flo.Controller.Slots.Position.{IsFirst, position-IsFirst, first_color_free}
use w3c_flo.Controller.Slots.Colors.{
  IsColor, HasColor, is_used, is_player, is_open_slot, collect, length-collect, has-collect_at,
  count_true-collect, scan_slots-collect,
}
use w3c_flo.Controller.Slots.Valid.{IsValid, IsValid-set}

-- What the scan finds.
abbrev scan_of : Slots → Option ℕ → Scan
scan_of s o = record {
  open_slot_idx = o;
  color_set = collect is_used s.inner no_colors;
  occupied_player_slots = count is_player s.inner;
}

any_slot-position :
    (p : Slot → Bool) (slots : List Slot) → any_slot p slots ≡ false → position p slots ≡ none
unfolding any_slot position
any_slot-position p [] h = refl
any_slot-position p (s ∷ slots) h = ground (arith, any_slot-position p slots)

position-any_slot :
    (p : Slot → Bool) (slots : List Slot) → position p slots ≡ none → any_slot p slots ≡ false
unfolding any_slot position
position-any_slot p [] h = refl
position-any_slot p (s ∷ slots) h = ground (arith, position-any_slot p slots)

first_open-zero : (o : Option ℕ) → elim o [ none ↦ none | some j ↦ some (0 + j) ] ≡ o
first_open-zero none = refl
first_open-zero (some j) = ground arith

scan_result :
    (s : Slots) (o : Option ℕ)
    → position is_open_slot s.inner ≡ o
    → ◌≡◌ {A = Scan}
        (record {
          open_slot_idx = elim (position is_open_slot s.inner) [
            | none ↦ none
            | some j ↦ some (0 + j)
          ];
          color_set = collect is_used s.inner no_colors;
          occupied_player_slots = 0 + count is_player s.inner;
        })
        (scan_of s o)
scan_result s o h =
    let open_idx = first_open-zero (position is_open_slot s.inner) ∙ h in
    let n : 0 + count is_player s.inner ≡ count is_player s.inner = omega arith in
    λ i. record {
      open_slot_idx = open_idx i;
      color_set = collect is_used s.inner no_colors;
      occupied_player_slots = n i;
    }

acquire_slot_mut-scanned :
    (s : Slots) (o : Option ℕ)
    → IsValid s
    → position is_open_slot s.inner ≡ o
    → acquire_slot_mut s ≡ acquire_scanned s (scan_of s o)
unfolding acquire_slot_mut
acquire_slot_mut-scanned s o v h =
    ap (λ m. m >>= acquire_scanned s)
      (scan_slots-collect 0 s.inner scan_start v.colors ∙ ap done (scan_result s o h))

acquire_scanned_at :
    (s : Slots) (idx : ℕ) (slot : Slot)
    → get_elem? s.inner idx ≡ some slot
    → acquire_scanned s (scan_of s (some idx))
      ≡ done (
        record s { inner = set s.inner idx (acquired s.map_players (scan_of s (some idx)) slot) },
        some idx,
      )
unfolding acquire_scanned
acquire_scanned_at s idx slot e = rw (e, acquire_scanned)

-- A lobby with no open slot is left alone.
pub acquire_slot_mut_full :
    (s : Slots) → IsValid s → is_full s ≡ true → acquire_slot_mut s ≡ done (s, none)
unfolding is_full
acquire_slot_mut_full s v h =
    acquire_slot_mut-scanned s none v (any_slot-position is_open_slot s.inner (ground arith))
    ∙ unfold acquire_scanned in refl

-- Slot `idx` of `s` was handed out, and nothing else changed.
pub record Acquires (s s' : Slots) (idx : ℕ) : Type 0 where
  pub was_open : IsFirst is_open_slot s.inner idx
  pub slot : Slot
  pub stored : s' ≡ record s { inner = set s.inner idx slot }
  pub used : is_used slot ≡ true
  pub same_player : slot.player ≡ was_open.item.player
  pub color : HasColor slot
  pub as_player :
      count is_player s.inner < s.map_players
      → (is_player slot ≡ true) × (slot.settings.team ≡ pos (count is_player s.inner))
  pub as_referee : s.map_players ≤ count is_player s.inner → slot.settings.team ≡ referees
  pub free :
      is_player slot ≡ true
      → (j : ℕ) (t : Slot) → get_elem? s.inner j ≡ some t
      → is_used t ≡ true
      → t.settings.color ≢ slot.settings.color

-- There is a free color, as one of the 24 slots is open.
scan_free :
    (s : Slots) (idx : ℕ) (slot : Slot)
    → IsValid s
    → get_elem? s.inner idx ≡ some slot
    → is_open_slot slot ≡ true
    → (first_color (scan_of s (some idx)).color_set < 24)
      × (has (scan_of s (some idx)).color_set (first_color (scan_of s (some idx)).color_set)
          ≡ false)
scan_free s idx slot v e o =
    let colors = collect is_used s.inner no_colors in
    let few : count_true colors < length colors = omega (
      arith,
      count_true-collect is_used s.inner no_colors,
      count-lt-length is_used s.inner idx e (ground arith),
      length-collect is_used s.inner no_colors,
      v.size,
    ) in
    let f = first_color_free colors few in
    (omega (arith, f.0, length-collect is_used s.inner no_colors), f.1)

free_color :
    (s : Slots) (c : ℕ)
    → IsValid s
    → has (collect is_used s.inner no_colors) c ≡ false
    → (j : ℕ) (t : Slot) → get_elem? s.inner j ≡ some t
    → is_used t ≡ true
    → t.settings.color ≢ pos c
free_color s c v h j t e u q =
    let held =
      subst (λ d. has (collect is_used s.inner no_colors) d ≡ true) (ap pos_part q)
        (has-collect_at is_used s.inner no_colors j v.colors refl e u) in
    cc

IsColor-cases : (b : Bool) (c : ℕ) → c < 24 → IsColor (if b then pos 0 else pos c)
IsColor-cases true c h = omega arith
IsColor-cases false c h = h

acquired-Acquires :
    (s : Slots) (idx : ℕ)
    → IsValid s
    → (f : IsFirst is_open_slot s.inner idx)
    → Acquires s
        (record s {
          inner = set s.inner idx (acquired s.map_players (scan_of s (some idx)) f.item);
        })
        idx
unfolding acquired
acquired-Acquires s idx v f =
    let free = scan_free s idx f.item v f.at f.passes in
    record {
      was_open = f;
      slot = acquired s.map_players (scan_of s (some idx)) f.item;
      stored = refl;
      used = refl;
      same_player = refl;
      color = IsColor-cases (leb s.map_players (count is_player s.inner)) _ free.0;
      as_player = λ h. ground (arith, count-lt-length is_player s.inner idx f.at, v.size);
      as_referee = λ h. ground arith;
      free = λ p j t e u q. free_color s _ v free.1 j t e u (ground arith);
    }

-- Where a slot is open, the first open one is handed out, to a player as long as there is room and to
-- a referee after that; a player gets a color that no other taken slot has.
pub acquire_slot_mut-Acquires :
    (s : Slots)
    → IsValid s
    → is_full s ≡ false
    → (s' : Slots) × (idx : ℕ) × (acquire_slot_mut s ≡ done (s', some idx)) × Acquires s s' idx
unfolding is_full
acquire_slot_mut-Acquires s v h = elim (Option-cases (position is_open_slot s.inner)) [
  | inl nowhere ↦ absurd (ground (arith, position-any_slot is_open_slot s.inner nowhere))
  | inr (idx, there) ↦
      let f = position-IsFirst is_open_slot s.inner idx there in
      (
        record s { inner = set s.inner idx (acquired s.map_players (scan_of s (some idx)) f.item) },
        idx,
        acquire_slot_mut-scanned s (some idx) v there ∙ acquire_scanned_at s idx f.item f.at,
        acquired-Acquires s idx v f,
      )
]

pub Acquires-IsValid : (s s' : Slots) (idx : ℕ) → IsValid s → Acquires s s' idx → IsValid s'
Acquires-IsValid s s' idx v a =
    rw a.stored (IsValid-set s idx a.slot v a.color (λ j t ne e p q. a.free q j t e (ground arith)))
