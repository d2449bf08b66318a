-- ===== src/Controller/Slots/Valid.antt =====
-- The invariant of the slots, and how a write keeps it.
use w3c_flo.Common.{
  ℕ, ◌<◌, ◌≡◌, ◌≢◌, subst, ◌∙◌, sym, true, some, List, Every, Every-set, get_elem?, set, length,
  length-set, get_elem?-set_self, get_elem?-set_ne, lt-length_of_get_elem?, ℕ_discrete,
}
use mathlib.Core.Option.{some-injective}
use w3c_flo.Controller.Types.{Slot}
use w3c_flo.Controller.Slots.{Slots}
use w3c_flo.Controller.Slots.Colors.{HasColor, is_player}

-- No two players have one color.
abbrev pub Distinct : List Slot → Type 0
Distinct slots =
    (i j : ℕ) (s t : Slot)
    → i ≢ j
    → get_elem? slots i ≡ some s
    → get_elem? slots j ≡ some t
    → is_player s ≡ true
    → is_player t ≡ true
    → s.settings.color ≢ t.settings.color

pub record IsValid (s : Slots) : Type 0 where
  pub size : length s.inner ≡ 24
  pub colors : Every HasColor s.inner
  pub distinct : Distinct s.inner

-- What a slot may hold at index `i`: a color that no other player has, if it is a player's.
abbrev pub Fits : List Slot → ℕ → Slot → Type 0
Fits slots i slot =
    (j : ℕ) (t : Slot)
    → j ≢ i
    → get_elem? slots j ≡ some t
    → is_player t ≡ true
    → is_player slot ≡ true
    → t.settings.color ≢ slot.settings.color

module _ (slots : List Slot) (i : ℕ) (slot : Slot) (distinct : Distinct slots)
    (fits : Fits slots i slot) where
  at_i : (s : Slot) → get_elem? (set slots i slot) i ≡ some s → slot ≡ s
  at_i s e = some-injective slot s (sym (get_elem?-set_self slots i slot (in_range slots i e)) ∙ e)
    where
      in_range : (xs : List Slot) (k : ℕ) → get_elem? (set xs k slot) k ≡ some s → k < length xs
      in_range xs k h =
          subst (λ n. k < n) (length-set xs k slot) (lt-length_of_get_elem? (set xs k slot) k h)

  other :
      (j : ℕ) (t : Slot)
      → i ≢ j
      → get_elem? (set slots i slot) j ≡ some t
      → get_elem? slots j ≡ some t
  other j t ne e = sym (get_elem?-set_ne slots slot ne) ∙ e

  new_differs :
      (k : ℕ) (t u : Slot)
      → i ≢ k
      → get_elem? (set slots i slot) k ≡ some t
      → is_player t ≡ true
      → get_elem? (set slots i slot) i ≡ some u
      → is_player u ≡ true
      → t.settings.color ≢ u.settings.color
  new_differs k t u ne ht pt hu pu =
      subst (λ v. is_player v ≡ true → t.settings.color ≢ v.settings.color) (at_i u hu)
        (λ p. fits k t (λ e. ne (sym e)) (other k t ne ht) pt p) pu

  -- A slot that fits keeps the colors distinct.
  pub Distinct-set : Distinct (set slots i slot)
  Distinct-set j k s t ne hs ht ps pt = elim (ℕ_discrete i j) [
    | yes e ↦ λ q.
        new_differs k t s (λ h. ne (sym e ∙ h)) ht pt
          (subst (λ m. get_elem? (set slots i slot) m ≡ some s) (sym e) hs) ps (sym q)
    | no i≢j ↦ elim (ℕ_discrete i k) [
      | yes e ↦
          new_differs j s t i≢j hs ps
            (subst (λ m. get_elem? (set slots i slot) m ≡ some t) (sym e) ht) pt
      | no i≢k ↦ distinct j k s t ne (other j s i≢j hs) (other k t i≢k ht) ps pt
    ]
  ]

-- A write of a slot that fits keeps the slots valid.
pub IsValid-set :
    (s : Slots) (i : ℕ) (slot : Slot)
    → IsValid s
    → HasColor slot
    → Fits s.inner i slot
    → IsValid (record s { inner = set s.inner i slot })
IsValid-set s i slot v c f = record {
  size = length-set s.inner i slot ∙ v.size;
  colors = Every-set HasColor s.inner i slot v.colors c;
  distinct = Distinct-set s.inner i slot v.distinct f;
}
