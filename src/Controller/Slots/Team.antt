-- ===== src/Controller/Slots/Team.antt =====
-- The team change of `update_slot_at`.
use mathlib.Core.Option.{some-injective}
use w3c_flo.Common.{
  ℕ, ◌<◌, ◌≡◌, ◌≢◌, refl, ap, subst, sym, ◌∙◌, inl, inr, Bool, true, false, not, ◌&&◌, none, some,
  List, ℤ, pos, pos_part, eq_ℤ, eq_ℤ→eq, eq→eq_ℤ, if_cases, Every-get_elem?, get_elem?, set, length,
  arith, has, count_true, count-lt-length, Bool-cases, Option-cases, get_elem?-set_self,
  get_elem?-set_ne, get_elem?-set_cases, lt-length_of_get_elem?,
}
use w3c_flo.Controller.Types.{SlotStatus, Slot, default_slot, default_settings, is_open}
use w3c_flo.Controller.Slots.{Slots, referees, position, first_color, no_colors, update_at}
use w3c_flo.Controller.Slots.Position.{position-IsFirst, first_color_free}
use w3c_flo.Controller.Slots.Colors.{
  HasColor, is_used, is_player, collect, length-collect, has-collect_at, count_true-collect,
}
use w3c_flo.Controller.Slots.Valid.{IsValid, Fits, IsValid-set}
use w3c_flo.Controller.Slots.Update.{Moved, is_referee, to_players, to_referees, change_team}

-- The color set of the slots before the update.
abbrev pub player_colors : Slots → List Bool
player_colors s = collect is_player s.inner no_colors

-- The slots after a team change: they are valid, slot `target` is the one to go on with, and the other
-- players stood at their places before.
pub record Moves (s : Slots) (slots : List Slot) (target : ℕ) : Type 0 where
  pub valid : IsValid (record s { inner = slots })
  pub slot : Slot
  pub at : get_elem? slots target ≡ some slot
  pub others :
      (k : ℕ) (t : Slot)
      → k ≢ target
      → get_elem? slots k ≡ some t
      → is_player t ≡ true
      → get_elem? s.inner k ≡ some t
  pub room : is_used slot ≡ false → count_true (player_colors s) < 24

-- A slot that is no player's leaves a color free.
pub room_of :
    (s : Slots) (i : ℕ) (slot : Slot)
    → IsValid s
    → get_elem? s.inner i ≡ some slot
    → is_player slot ≡ false
    → count_true (player_colors s) < 24
room_of s i slot v e h = omega (
  arith,
  count_true-collect is_player s.inner no_colors,
  count-lt-length is_player s.inner i e h,
  v.size,
)

pub first_free :
    (s : Slots)
    → IsValid s
    → count_true (player_colors s) < 24
    → (first_color (player_colors s) < 24)
      × (has (player_colors s) (first_color (player_colors s)) ≡ false)
first_free s v h =
    let l : length (player_colors s) ≡ 24 = length-collect is_player s.inner no_colors in
    let f = first_color_free (player_colors s) (omega arith) in (omega arith, f.1)

-- A color that is not in the set is no player's.
pub free_of_players :
    (s : Slots) (c : ℕ) (k : ℕ) (t : Slot)
    → IsValid s
    → has (player_colors s) c ≡ false
    → get_elem? s.inner k ≡ some t
    → is_player t ≡ true
    → t.settings.color ≢ pos c
free_of_players s c k t v h e p q =
    let held =
      subst (λ d. has (player_colors s) d ≡ true) (ap pos_part q)
        (has-collect_at is_player s.inner no_colors k v.colors refl e p) in
    cc

-- Slot `j` is overwritten, and then slot `i` by a slot that is no player's.
module _ (s : Slots) (v : IsValid s) (i j : ℕ) (a b new : Slot) (ha : get_elem? s.inner i ≡ some a)
    (hb : get_elem? s.inner j ≡ some b) (ne : i ≢ j) where
  pub moved-Moves :
      (emptied : Slot)
      → HasColor new
      → Fits s.inner j new
      → HasColor emptied
      → is_player emptied ≡ false
      → is_used new ≡ true
      → Moves s (set (set s.inner j new) i emptied) j
  moved-Moves emptied hn fits he np used = record {
    valid =
        IsValid-set (record s { inner = set s.inner j new }) i emptied
          (IsValid-set s j new v hn fits) he (λ k t n h p q. absurd (ground arith));
    slot = new;
    at =
        get_elem?-set_ne (set s.inner j new) emptied ne
        ∙ get_elem?-set_self s.inner j new (lt-length_of_get_elem? s.inner j hb);
    others = λ k t n h p. elim (get_elem?-set_cases (set s.inner j new) i k emptied h) [
      | inl e ↦ absurd (ground arith)
      | inr (_, h') ↦ elim (get_elem?-set_cases s.inner j k new h') [
        | inl (e, _) ↦ absurd (n (sym e))
        | inr (_, h'') ↦ h''
      ]
    ];
    room = λ h. absurd (ground arith);
  }

-- The change of the slot itself: its team, between player teams.
stay-Moves :
    (s : Slots) (i : ℕ) (slot : Slot) (team : ℤ)
    → IsValid s
    → get_elem? s.inner i ≡ some slot
    → is_referee slot ≡ false
    → Moves s (set s.inner i (record slot { settings = record (slot.settings) { team = team } })) i
stay-Moves s i slot team v e h =
    let new : Slot = record slot { settings = record (slot.settings) { team = team } } in
    record {
      valid =
          IsValid-set s i new v (Every-get_elem? HasColor s.inner i v.colors e)
            (λ k t n g p q. v.distinct k i t slot n g e p (ground arith));
      slot = new;
      at = get_elem?-set_self s.inner i new (lt-length_of_get_elem? s.inner i e);
      others = λ k t n g p. elim (get_elem?-set_cases s.inner i k new g) [
        | inl (q, _) ↦ absurd (n (sym q))
        | inr (_, g') ↦ g'
      ];
      room = λ u. room_of s i slot v e (ground arith);
    }

keep-Moves :
    (s : Slots) (i : ℕ) (slot : Slot)
    → IsValid s
    → get_elem? s.inner i ≡ some slot
    → Moves s s.inner i
keep-Moves s i slot v e = record {
  valid = v;
  slot = slot;
  at = e;
  others = λ k t n g p. g;
  room = λ u. room_of s i slot v e (ground arith);
}

abbrev player_seat : Slot → Bool
player_seat s = not (is_referee s) && is_open s.settings.status

abbrev referee_seat : Slot → Bool
referee_seat s = is_referee s && is_open s.settings.status

-- What `change_team` returns keeps the slots valid.
abbrev pub MovesTo : Slots → Moved → Type 0
MovesTo s none = Unit
MovesTo s (some (slots, target)) = Moves s slots target

update_at-set :
    (xs : List Slot) (j : ℕ) (x : Slot) (f : Slot → Slot)
    → get_elem? xs j ≡ some x
    → update_at xs j f ≡ set xs j (f x)
update_at-set xs j x f e = ground (arith, e)

-- A player for a slot, in the settings that a team change writes.
abbrev seat : Slot → Slot → ℤ → ℤ → Slot
seat slot s team color = record s {
  player = slot.player;
  settings = record default_settings { team = team; status = SlotStatus.occupied; color = color };
}

differ :
    (s : Slots) (i j : ℕ) (a b : Slot) (p : Slot → Bool)
    → get_elem? s.inner i ≡ some a
    → get_elem? s.inner j ≡ some b
    → p a ≡ false
    → p b ≡ true
    → i ≢ j
differ s i j a b p ha hb pa pb e =
    let same = some-injective a b (sym ha ∙ (ap (get_elem? s.inner) e ∙ hb)) in
    let both : p b ≡ false = subst (λ t. p t ≡ false) same pa in cc

to_players-MovesTo :
    (s : Slots) (i : ℕ) (slot : Slot) (team : ℤ)
    → IsValid s
    → get_elem? s.inner i ≡ some slot
    → is_referee slot ≡ true
    → MovesTo s (to_players s.inner (player_colors s) i slot team)
unfolding to_players
to_players-MovesTo s i slot team v e h = elim (Option-cases (position player_seat s.inner)) [
  | inl nowhere ↦ rw (nowhere, to_players) tt
  | inr (j, there) ↦
      let f = position-IsFirst player_seat s.inner j there in
      let free = first_free s v (room_of s j f.item v f.at (ground arith)) in
      let new = seat slot f.item team (pos (first_color (player_colors s))) in
      let ne = differ s i j slot f.item player_seat e f.at (ground arith) f.passes in
      rw (there, to_players, update_at-set s.inner j f.item _ f.at)
        (moved-Moves s v i j slot f.item new e f.at ne _ free.0
          (λ k t n g p q. free_of_players s _ k t v free.1 g p) (omega arith) refl refl)
]

to_referees-MovesTo :
    (s : Slots) (i : ℕ) (slot : Slot)
    → IsValid s
    → get_elem? s.inner i ≡ some slot
    → is_referee slot ≡ false
    → MovesTo s (to_referees s.inner i slot)
unfolding to_referees
to_referees-MovesTo s i slot v e h = elim (Option-cases (position referee_seat s.inner)) [
  | inl nowhere ↦ rw (nowhere, to_referees) tt
  | inr (j, there) ↦
      let f = position-IsFirst referee_seat s.inner j there in
      let new = seat slot f.item referees (pos 0) in
      let ne = differ s i j slot f.item referee_seat e f.at (ground arith) f.passes in
      rw (there, to_referees, update_at-set s.inner j f.item _ f.at)
        (moved-Moves s v i j slot f.item new e f.at ne default_slot (omega arith)
          (λ k t n g p q. absurd (ground arith)) (omega arith) refl refl)
]

stays :
    (slot : Slot) (team : ℤ)
    → eq_ℤ team slot.settings.team ≡ false
    → (is_referee slot && not (eq_ℤ team referees)) ≡ false
    → is_referee slot ≡ false
stays slot team h k = elim (Bool-cases (is_referee slot)) [
  | inr e ↦ e
  | inl e ↦
      let a = eq_ℤ→eq slot.settings.team referees e in
      let b = eq_ℤ→eq team referees (ground arith) in
      let c = eq→eq_ℤ team slot.settings.team (b ∙ sym a) in cc
]

-- Whatever the new team, a team change that is made keeps the slots valid.
pub change_team-MovesTo :
    (s : Slots) (i : ℕ) (slot : Slot) (team : ℤ)
    → IsValid s
    → get_elem? s.inner i ≡ some slot
    → MovesTo s (change_team s.inner (player_colors s) i slot team)
unfolding change_team
change_team-MovesTo s i slot team v e =
    if_cases (MovesTo s) (eq_ℤ team slot.settings.team) _ _ (λ same. keep-Moves s i slot v e)
      λ differs.
        if_cases (MovesTo s) (is_referee slot && not (eq_ℤ team referees)) _ _
          (λ h. to_players-MovesTo s i slot team v e (ground arith))
          λ no_player.
            if_cases (MovesTo s) (not (is_referee slot) && eq_ℤ team referees) _ _
              (λ h. to_referees-MovesTo s i slot v e (ground arith))
              λ no_referee. stay-Moves s i slot team v e (stays slot team differs no_player)
