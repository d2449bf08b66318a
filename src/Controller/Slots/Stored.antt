-- ===== src/Controller/Slots/Stored.antt =====
-- The slots as they are stored, `as_used`, and read back, `from_used`.
use w3c_flo.Common.{
  ℕ, zero, suc, ◌+◌, ◌<◌, ◌≡◌, refl, ap, ◌∙◌, Bool-cases, inl, inr, Option, none, some, List, [],
  ◌∷◌, if◌then◌else◌, get_elem?, length, lt-length_of_get_elem?, arith,
}
use w3c_flo.Controller.Types.{Slot, is_open}
use w3c_flo.Controller.Slots.{
  Slots, UsedSlot, make_unused_slot, used_at, slot_or_unused, used_from, from_used, to_used,
  as_used_from, as_used,
}

used_at_before :
    (idx k : ℕ) (slots : List Slot) → idx < k → used_at idx (as_used_from k slots) ≡ none
unfolding used_at as_used_from
used_at_before idx k [] h = refl
used_at_before idx k (s ∷ slots) h = ground (arith, used_at_before idx (suc k) slots)

-- What the stored slots hold at an index.
abbrev stored_at : ℕ → Option Slot → Option UsedSlot
stored_at idx none = none
stored_at idx (some slot) = if is_open slot.settings.status then none else some (to_used idx slot)

used_at-as_used_from :
    (d k idx : ℕ) (slots : List Slot)
    → k + d ≡ idx
    → used_at idx (as_used_from k slots) ≡ stored_at idx (get_elem? slots d)
unfolding used_at as_used_from
used_at-as_used_from d k idx [] h = refl
used_at-as_used_from zero k idx (s ∷ slots) h = ground (arith, used_at_before idx (suc k) slots)
used_at-as_used_from (suc d) k idx (s ∷ slots) h =
    ground (arith, used_at-as_used_from d (suc k) idx slots)

get_elem?-used_from :
    (d k n idx mp : ℕ) (us : List UsedSlot)
    → k + d ≡ idx
    → d < n
    → get_elem? (used_from mp us k n) d ≡ some (slot_or_unused mp idx (used_at idx us))
unfolding used_from
get_elem?-used_from d k zero idx mp us e h = absurd (omega arith)
get_elem?-used_from zero k (suc n) idx mp us e h =
    ap (λ (j : ℕ). some (slot_or_unused mp j (used_at j us))) (omega arith)
get_elem?-used_from (suc d) k (suc n) idx mp us e h =
    get_elem?-used_from d (suc k) n idx mp us (omega arith) (omega arith)

read_back :
    (mp idx : ℕ) (slot : Slot)
    → slot_or_unused mp idx (stored_at idx (some slot))
      ≡ (if is_open slot.settings.status then make_unused_slot mp idx else slot)
unfolding slot_or_unused
read_back mp idx slot = elim (Bool-cases (is_open slot.settings.status)) [
  | inl e ↦ rw (e, slot_or_unused)
  | inr e ↦ rw (e, slot_or_unused)
]

-- Storing the 24 slots and reading them back keeps each slot that is not open, and resets each open
-- slot to the unused slot of its place.
pub from_used-as_used :
    (s : Slots) (i : ℕ) (slot : Slot)
    → length s.inner ≡ 24
    → get_elem? s.inner i ≡ some slot
    → get_elem? (from_used s.map_players (as_used s)).inner i
      ≡ some (if is_open slot.settings.status then make_unused_slot s.map_players i else slot)
unfolding from_used as_used
from_used-as_used s i slot h e =
    get_elem?-used_from i 0 24 i s.map_players (as_used_from 0 s.inner) (omega arith)
      (omega (arith, lt-length_of_get_elem? s.inner i e))
    ∙ ap some (
        ap (slot_or_unused s.map_players i)
          (used_at-as_used_from i 0 i s.inner (omega arith) ∙ ap (stored_at i) e)
        ∙ read_back s.map_players i slot)
