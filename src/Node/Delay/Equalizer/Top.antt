-- ===== src/Node/Delay/Equalizer/Top.antt =====
-- crates/node/src/game/host/delay_equalizer.rs: a player that is removed is not the top.
use w3c_flo.Common.{
  ℕ, ◌≡◌, refl, sym, ap, ◌∙◌, Bool, true, false, ◌&&◌, Option, none, some, [], ◌∷◌, ◌==◌,
  if◌then◌else◌, length, arith, Every, Every-map, Bool-cases, inl, inr, if_cases, ◌⊎◌,
}
use mathlib.Core.Option.{some-injective}
use w3c_flo.Common.Maps.{
  SortedMap, get, insert, IsSorted, insert-Above, Above-entries, get-insert_self,
}
use w3c_flo.Node.Delay.Equalizer.{
  FloatOps, EqualizerSlot, Longest, DelayEqualizer, longest_from, rtt_lt, rtt_comparable,
  rtt_or_max, find_top, all_sampled, check_ready, slot_or_default, is_top, remove_from_slots,
}

module _ (O : FloatOps) (sample_size : ℕ) where
  open O use {F32}

  module _ (p : ℕ) where
    -- A slot of the player is a removed one.
    IsGone : ℕ × EqualizerSlot F32 → Type 0
    IsGone x = x.1.removed ≡ false → (x.0 == p) ≡ false

    IsOther : Option (ℕ × Option ℕ) → Type 0
    IsOther none = Unit
    IsOther (some (id, r)) = (id == p) ≡ false

    longest_from-IsOther :
        (slots : SortedMap (EqualizerSlot F32)) (best : Option (ℕ × Option ℕ))
        → Every IsGone slots
        → IsOther best
        → IsOther (longest_from O sample_size best slots)
    unfolding longest_from IsOther IsGone
    longest_from-IsOther [] best g o = o
    longest_from-IsOther ((id, slot) ∷ slots) none g o = longest_from-IsOther slots _ g.1 (
        if_cases IsOther slot.removed none (some (id, rtt_comparable O sample_size slot)) (λ _. tt)
          (λ stays. g.0 stays))
    longest_from-IsOther ((id, slot) ∷ slots) (some (j, r)) g o = longest_from-IsOther slots _ g.1 (
        if_cases IsOther slot.removed (some (j, r)) _ (λ _. o)
          (λ stays.
            if_cases IsOther (rtt_lt (rtt_comparable O sample_size slot) r) (some (j, r))
              (some (id, rtt_comparable O sample_size slot)) (λ _. o) (λ _. g.0 stays)))

    find_top_other :
        (slots : SortedMap (EqualizerSlot F32))
        → Every IsGone slots
        → is_top O sample_size p (find_top O sample_size slots) ≡ false
    unfolding find_top IsOther
    find_top_other slots g =
        other (longest_from O sample_size none slots) (longest_from-IsOther slots none g tt)
      where
        other :
            (o : Option (ℕ × Option ℕ))
            → IsOther o
            → is_top O sample_size p (elim o as (λ _. Option Longest) [
              | none ↦ none
              | some (id, r) ↦
                  some (record { player_id = id; real_rtt = rtt_or_max O sample_size r })
            ])
              ≡ false
        other none h = refl
        other (some (id, r)) h = h

    -- In a sorted map that has a removed slot for the player, all its slots are removed ones.
    slots-IsGone :
        (slots : SortedMap (EqualizerSlot F32)) (slot : EqualizerSlot F32)
        → IsSorted slots
        → get p slots ≡ some slot
        → slot.removed ≡ true
        → Every IsGone slots
    unfolding IsGone
    slots-IsGone slots slot s e r =
        Every-map {P = λ x. get x.0 slots ≡ some x.1} {Q = IsGone} gone slots
          (Above-entries 0 slots s)
      where
        same_slot : (other : EqualizerSlot F32) → some other ≡ some slot → other.removed ≡ false → ⊥
        same_slot other q stays =
            absurd (
              cc
                (ap (λ (x : EqualizerSlot F32). x.removed) (some-injective other slot q), r, stays))

        gone :
            (x : ℕ × EqualizerSlot F32)
            → get x.0 slots ≡ some x.1
            → x.1.removed ≡ false
            → (x.0 == p) ≡ false
        gone (id, other) g stays = elim (Bool-cases (id == p)) [
          | inl same ↦
              absurd
                (same_slot other (sym g ∙ ap (λ k. get k slots) (ground (arith, same)) ∙ e) stays)
          | inr not_p ↦ not_p
        ]

  -- The top is none before there are enough samples.
  abbrev pub TopWaits : DelayEqualizer F32 → Type 0
  TopWaits e = (e.ready ≡ true) ⊎ (e.top ≡ none)

  other_top :
      (p : ℕ) (slots : SortedMap (EqualizerSlot F32)) (top : Option Longest)
      → Every (IsGone p) slots
      → is_top O sample_size p
          (if is_top O sample_size p top then find_top O sample_size slots else top)
        ≡ false
  other_top p slots top g = elim (Bool-cases (is_top O sample_size p top)) [
    | inl same ↦ rw same (find_top_other p slots g)
    | inr other ↦ rw other other
  ]

  checked_other :
      (p : ℕ) (e : DelayEqualizer F32)
      → Every (IsGone p) e.slots
      → TopWaits e
      → let (top, e2) = check_ready O sample_size e in
        is_top O sample_size p
          (if is_top O sample_size p top then find_top O sample_size e2.slots else e2.top)
        ≡ false
  unfolding check_ready
  checked_other p e g w =
      if_cases
        (λ (r : Option Longest × DelayEqualizer F32).
          is_top O sample_size p
            (if is_top O sample_size p r.0 then find_top O sample_size r.1.slots else r.1.top)
          ≡ false)
        e.ready _ _ (λ _. other_top p e.slots e.top g)
        (λ not_ready.
          if_cases
            (λ (r : Option Longest × DelayEqualizer F32).
              is_top O sample_size p
                (if is_top O sample_size p r.0 then find_top O sample_size r.1.slots else r.1.top)
              ≡ false)
            ((e.max_player_count == length e.slots) && all_sampled O sample_size e.slots) _ _
            (λ _. other_top p e.slots (find_top O sample_size e.slots) g)
            (λ _. elim w [
              | inl ready ↦ cc (ready, not_ready)
              | inr none_yet ↦ ap (is_top O sample_size p) none_yet
            ]))

  if_top :
      (b : Bool) (e : DelayEqualizer F32) (t : Option Longest)
      → (if b then record e { top = t } else e).top ≡ (if b then t else e.top)
  if_top true e t = refl
  if_top false e t = refl

  -- A player that has been removed is not the one with the longest round trips, in an equalizer whose slots
  -- are in order and which has no top before it is ready.
  pub remove_from_slots_top :
      (player_id : ℕ) (e : DelayEqualizer F32)
      → IsSorted e.slots
      → TopWaits e
      → is_top O sample_size player_id (remove_from_slots O sample_size player_id e).top ≡ false
  unfolding remove_from_slots
  remove_from_slots_top p e s w =
      let slot = record (slot_or_default O sample_size (get p e.slots)) { removed = true } in
      let slots = insert p slot e.slots in
      let e1 : DelayEqualizer F32 = record e { slots = slots } in
      let (top, e2) = check_ready O sample_size e1 in
      ap (is_top O sample_size p)
        (if_top (is_top O sample_size p top) e2 (find_top O sample_size e2.slots))
      ∙ checked_other p e1
          (slots-IsGone p slots slot (insert-Above p 0 slot e.slots (omega arith) s)
            (get-insert_self p slot e.slots) refl)
          w
