-- ===== src/Controller/Slots/New.antt =====
-- The slots of a new lobby.
use w3c_flo.Common.{
  ℕ, zero, suc, ◌+◌, ◌<◌, ◌≤◌, ◌∙◌, some, pos, get_elem?, ◌≡◌, refl, ap, true, false, not, Every,
  Every-get_elem?, length, arith,
}
use w3c_flo.Controller.Types.{Slot, player_is_some}
use w3c_flo.Controller.Slots.{unused_from, make_unused_slot, new, any_slot, is_empty, is_full}
use w3c_flo.Controller.Slots.Colors.{HasColor, is_player}
use w3c_flo.Controller.Slots.Valid.{IsValid}

length-unused_from : (mp idx n : ℕ) → length (unused_from mp idx n) ≡ n
unfolding unused_from
length-unused_from mp idx zero = refl
length-unused_from mp idx (suc n) = ap suc (length-unused_from mp (suc idx) n)

unused_from-HasColor : (mp idx n : ℕ) → Every HasColor (unused_from mp idx n)
unfolding unused_from make_unused_slot
unused_from-HasColor mp idx zero = tt
unused_from-HasColor mp idx (suc n) = (omega arith, unused_from-HasColor mp (suc idx) n)

unused_from_free : (mp idx n : ℕ) → Every (λ s. is_player s ≡ false) (unused_from mp idx n)
unfolding unused_from make_unused_slot
unused_from_free mp idx zero = tt
unused_from_free mp idx (suc n) = (refl, unused_from_free mp (suc idx) n)

unused_from_empty :
    (mp idx n : ℕ) → any_slot (λ s. player_is_some s.player) (unused_from mp idx n) ≡ false
unfolding unused_from make_unused_slot any_slot
unused_from_empty mp idx zero = refl
unused_from_empty mp idx (suc n) = unused_from_empty mp (suc idx) n

new_lobby_lem :
    (map_players : ℕ)
    → IsValid (new map_players)
      × (is_empty (new map_players) ≡ true)
      × (is_full (new map_players) ≡ false)
unfolding new is_empty is_full
new_lobby_lem mp = (
  record {
    size = length-unused_from mp 0 24;
    colors = unused_from-HasColor mp 0 24;
    distinct = λ i j s t ne hs ht ps pt.
        let free =
          Every-get_elem? (λ s. is_player s ≡ false) (unused_from mp 0 24) i
            (unused_from_free mp 0 24) hs in
        absurd (ground arith);
  },
  ap not (unused_from_empty mp 0 24),
  refl,
)

get_elem?-unused_from :
    (mp idx n i : ℕ)
    → i < n
    → get_elem? (unused_from mp idx n) i ≡ some (make_unused_slot mp (idx + i))
unfolding unused_from
get_elem?-unused_from mp idx zero i l = absurd (omega arith)
get_elem?-unused_from mp idx (suc n) zero l = ap (λ k. some (make_unused_slot mp k)) (omega arith)
get_elem?-unused_from mp idx (suc n) (suc i) l =
    get_elem?-unused_from mp (suc idx) n i (omega arith)
    ∙ ap (λ k. some (make_unused_slot mp k)) (omega arith)

team_of_unused :
    (mp idx : ℕ)
    → (idx < mp → (make_unused_slot mp idx).settings.team ≡ pos 0)
      × (mp ≤ idx → (make_unused_slot mp idx).settings.team ≡ pos 24)
unfolding make_unused_slot
team_of_unused mp idx = ((λ l. ground arith), (λ l. ground arith))

-- A new lobby has 24 valid slots, nobody in it, and an open slot. The slots before `map_players` are of
-- team 0, and those from there on of team 24, that of the referees.
pub new-IsValid :
    (map_players : ℕ)
    → IsValid (new map_players)
      × (is_empty (new map_players) ≡ true)
      × (is_full (new map_players) ≡ false)
      × ((i : ℕ)
          → i < 24
          → (slot : Slot) × (get_elem? (new map_players).inner i ≡ some slot)
            × (i < map_players → slot.settings.team ≡ pos 0)
            × (map_players ≤ i → slot.settings.team ≡ pos 24))
unfolding new
new-IsValid mp =
    let (valid, empty, full) = new_lobby_lem mp in
    (
      valid,
      empty,
      full,
      (λ i l. (
        make_unused_slot mp i,
        get_elem?-unused_from mp 0 24 i l ∙ ap (λ k. some (make_unused_slot mp k)) (omega arith),
        (team_of_unused mp i).0,
        (team_of_unused mp i).1,
      )),
    )
