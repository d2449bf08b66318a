-- ===== src/Controller/Slots/Release.antt =====
-- Leaving the lobby: `release_player_slot` and `release_all_player_slots`; and `join`.
use w3c_flo.Common.{
  ℕ, zero, suc, ◌≡◌, refl, ap, ◌∙◌, ◌⊎◌, inl, inr, Bool, true, not, some, List, [], ◌∷◌, Every,
  get_elem?, length, arith, Option-cases, ◌≢◌, false, lt-length_of_get_elem?, get_elem?-set_self,
  get_elem?-set_ne,
}
use w3c_flo.Controller.Types.{Slot, default_slot, is_player_id, player_is_some}
use w3c_flo.Controller.Slots.{
  Slots, position, player_ids, get_player_ids, any_slot, is_empty, release_player_slot, release_all,
  release_all_player_slots,
}
use w3c_flo.Controller.Slots.Colors.{HasColor}
use w3c_flo.Controller.Slots.Position.{IsFirst, position-IsFirst, position-none}
use w3c_flo.Controller.Slots.Valid.{IsValid, IsValid-set}

-- What the release of a player's slot does: the first slot of the player becomes an open slot without a
-- player, and all others stay; nothing changes when no slot is the player's.
pub data Releases (s : Slots) (player_id : ℕ) (r : Slots × Bool) : Type 0 where
  absent :
      Every (λ slot. is_player_id player_id slot.player ≡ false) s.inner
      → r ≡ (s, false)
      → Releases s player_id r
  released :
      (i : ℕ)
      → IsFirst (λ slot. is_player_id player_id slot.player) s.inner i
      → get_elem? r.0.inner i ≡ some default_slot
      → ((j : ℕ) → i ≢ j → get_elem? r.0.inner j ≡ get_elem? s.inner j)
      → r.1 ≡ true
      → Releases s player_id r

-- On valid slots, the first slot of the player is made an open slot, the others stay as they are, and the
-- answer is yes; when no slot is the player's nothing changes, and the answer is no. The slots stay
-- valid.
pub release_player_slot-IsValid :
    (s : Slots) (player_id : ℕ)
    → IsValid s
    → IsValid (release_player_slot s player_id).0
      × Releases s player_id (release_player_slot s player_id)
unfolding release_player_slot
release_player_slot-IsValid s player_id v =
    elim (Option-cases (position (λ slot. is_player_id player_id slot.player) s.inner)) [
      | inl e ↦
          rw (e, release_player_slot)
            (v, absent (position-none (λ slot. is_player_id player_id slot.player) s.inner e) refl)
      | inr (i, e) ↦
          let first = position-IsFirst (λ slot. is_player_id player_id slot.player) s.inner i e in
          rw (e, release_player_slot)
            (
              IsValid-set s i default_slot v (omega arith) (λ j t ne h p q. absurd (ground arith)),
              released i first
                  (get_elem?-set_self s.inner i default_slot
                    (lt-length_of_get_elem? s.inner i first.at))
                  (λ j ne. get_elem?-set_ne s.inner default_slot ne) refl,
            )
    ]

-- What stands at each index after all players are gone.
release_all_at :
    (slots : List Slot) (i : ℕ) (t : Slot)
    → get_elem? (release_all slots).0 i ≡ some t
    → (t ≡ default_slot) ⊎ (get_elem? slots i ≡ some t)
unfolding release_all
release_all_at [] i t h = inr h
release_all_at (s ∷ slots) zero t h = ground arith
release_all_at (s ∷ slots) (suc i) t h = elim (Option-cases s.player) [
  | inl e ↦ release_all_at slots i t (ground arith)
  | inr (p, e) ↦ release_all_at slots i t (ground arith)
]

length-release_all : (slots : List Slot) → length (release_all slots).0 ≡ length slots
unfolding release_all
length-release_all [] = refl
length-release_all (s ∷ slots) = ground (arith, length-release_all slots)

release_all-HasColor :
    (slots : List Slot) → Every HasColor slots → Every HasColor (release_all slots).0
unfolding release_all
release_all-HasColor [] h = h
release_all-HasColor (s ∷ slots) h = elim (Option-cases s.player) [
  | inl e ↦ rw (e, release_all) (h.0, release_all-HasColor slots h.1)
  | inr (p, e) ↦ rw (e, release_all) (omega arith, release_all-HasColor slots h.1)
]

release_all_ids : (slots : List Slot) → (release_all slots).1 ≡ player_ids slots
unfolding release_all player_ids
release_all_ids [] = refl
release_all_ids (s ∷ slots) = ground (arith, release_all_ids slots)

release_all_empty :
    (slots : List Slot) → any_slot (λ s. player_is_some s.player) (release_all slots).0 ≡ false
unfolding release_all any_slot
release_all_empty [] = refl
release_all_empty (s ∷ slots) = ground (arith, release_all_empty slots)

-- All players are removed and reported, in order, and the slots stay valid.
pub release_all_player_slots_lem :
    (s : Slots)
    → IsValid s
    → IsValid (release_all_player_slots s).0
      × ((release_all_player_slots s).1 ≡ get_player_ids s)
      × (is_empty (release_all_player_slots s).0 ≡ true)
unfolding release_all_player_slots get_player_ids is_empty
release_all_player_slots_lem s v = (
  record {
    size = length-release_all s.inner ∙ v.size;
    colors = release_all-HasColor s.inner v.colors;
    distinct = λ i j a b ne ha hb pa pb. elim (release_all_at s.inner i a ha) [
      | inl e ↦ absurd (ground arith)
      | inr ha' ↦ elim (release_all_at s.inner j b hb) [
        | inl e ↦ absurd (ground arith)
        | inr hb' ↦ v.distinct i j a b ne ha' hb' pa pb
      ]
    ];
  },
  release_all_ids s.inner,
  ap not (release_all_empty s.inner),
)
