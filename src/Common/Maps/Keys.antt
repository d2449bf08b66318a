-- ===== src/Common/Maps/Keys.antt =====
-- Two sorted maps of which the one has keys of the other only.
use Prim.Native.Nat.{ℕ, suc, ◌<◌, ◌≤◌}
use mathlib.Core.Path.{◌≡◌, refl, subst, ◌∙◌}
use mathlib.Core.Bool.{true}
use mathlib.Core.List.{[], ◌∷◌}
use native.Mathlib.Omega.{arith}
use w3c_flo.Common.Lists.{length}
use mathlib.Core.Logic.{◌≢◌, ◌⊎◌, inl, inr}
use native.Mathlib.Decide.{ℕ_discrete}
use w3c_flo.Common.Maps.{SortedMap, has_key, insert, remove, Above, le_key}

module _ {ℓ κ} {V : Type ℓ} {W : Type κ} where
  -- Each key of the one map is a key of the other.
  abbrev pub Within : SortedMap V → SortedMap W → Type 0
  Within a b = (k : ℕ) → has_key k a ≡ true → has_key k b ≡ true

  tail_Within :
      (x y : ℕ) (v : V) (w : W) (a : SortedMap V) (b : SortedMap W)
      → x ≡ y
      → Above (suc x) a
      → Within ((x, v) ∷ a) ((y, w) ∷ b)
      → Within a b
  unfolding has_key
  tail_Within x y v w a b e s h k hk = ground (arith, h k, le_key k (suc x) a s hk)

  skip_Within :
      (x y : ℕ) (v : V) (w : W) (a : SortedMap V) (b : SortedMap W)
      → x ≢ y
      → Above (suc x) a
      → Above (suc y) b
      → Within ((x, v) ∷ a) ((y, w) ∷ b)
      → Within ((x, v) ∷ a) b
  unfolding has_key
  skip_Within x y v w a b ne s t h k hk =
      ground (arith, h k, h x, le_key k (suc x) a s, le_key x (suc y) b t, le_key k (suc y) b t)

  -- A map whose keys all lie in the other one is no longer than it; and if it is as long, it has all
  -- keys of the other one.
  pub Within-length :
      (low low' : ℕ) (a : SortedMap V) (b : SortedMap W)
      → Above low a
      → Above low' b
      → Within a b
      → (length a < length b)
        ⊎ ((length a ≡ length b) × ((k : ℕ) → has_key k b ≡ true → has_key k a ≡ true))
  unfolding has_key
  Within-length low low' [] [] s t h = inr (refl, λ k e. e)
  Within-length low low' [] (_ ∷ b) s t h = inl (omega arith)
  Within-length low low' ((x, v) ∷ a) [] s t h = absurd (ground (arith, h x))
  Within-length low low' ((x, v) ∷ a) ((y, w) ∷ b) s t h = elim (ℕ_discrete x y) [
    | yes e ↦ elim (Within-length (suc x) (suc y) a b s.1 t.1 (tail_Within x y v w a b e s.1 h)) [
      | inl l ↦ inl (omega arith)
      | inr (l, f) ↦ inr (omega arith, λ k hk. ground (arith, f k))
    ]
    | no ne ↦
        elim (Within-length low (suc y) ((x, v) ∷ a) b s t.1
          (skip_Within x y v w a b ne s.1 t.1 h)) [
            | inl l ↦ inl (omega arith)
            | inr (l, f) ↦ inl (omega arith)
          ]
  ]

-- Two maps with the same keys, in the same order.
module _ {ℓ κ} {V : Type ℓ} {W : Type κ} where
  abbrev pub SameKeys : SortedMap V → SortedMap W → Type 0
  SameKeys [] [] = Unit
  SameKeys [] (y ∷ b) = ⊥
  SameKeys (x ∷ a) [] = ⊥
  SameKeys ((j, v) ∷ a) ((k, w) ∷ b) = (j ≡ k) × SameKeys a b

  pub SameKeys-has_key :
      (k : ℕ) (a : SortedMap V) (b : SortedMap W) → SameKeys a b → has_key k a ≡ has_key k b
  unfolding has_key
  SameKeys-has_key k [] [] s = refl
  SameKeys-has_key k [] (y ∷ b) s = elim s [ ]
  SameKeys-has_key k (x ∷ a) [] s = elim s [ ]
  SameKeys-has_key k ((i, v) ∷ a) ((j, w) ∷ b) s = ground (arith, SameKeys-has_key k a b s.1, s.0)

  pub SameKeys-Above :
      (low : ℕ) (a : SortedMap V) (b : SortedMap W) → SameKeys a b → Above low a → Above low b
  SameKeys-Above low [] [] s h = tt
  SameKeys-Above low [] (y ∷ b) s h = elim s [ ]
  SameKeys-Above low (x ∷ a) [] s h = elim s [ ]
  SameKeys-Above low ((i, v) ∷ a) ((j, w) ∷ b) s h = (
    omega (arith, h.0, s.0),
    SameKeys-Above (suc j) a b s.1 (subst (λ n. Above (suc n) a) s.0 h.1),
  )

  pub SameKeys-length : (a : SortedMap V) (b : SortedMap W) → SameKeys a b → length a ≡ length b
  SameKeys-length [] [] s = refl
  SameKeys-length [] (y ∷ b) s = elim s [ ]
  SameKeys-length (x ∷ a) [] s = elim s [ ]
  SameKeys-length (x ∷ a) (y ∷ b) s = omega (arith, SameKeys-length a b s.1)

length-remove_le {ℓ} : {V : Type ℓ} (k : ℕ) (m : SortedMap V) → length (remove k m) ≤ length m
unfolding remove
length-remove_le k [] = omega arith
length-remove_le k ((j, v) ∷ m) = ground (arith, length-remove_le k m)

-- Taking a key off makes a map shorter.
pub length-remove {ℓ} :
    {V : Type ℓ} (k low : ℕ) (m : SortedMap V)
    → Above low m
    → has_key k m ≡ true
    → length (remove k m) < length m
unfolding remove has_key
length-remove k low [] s h = cc
length-remove k low ((j, v) ∷ m) s h =
    ground (arith, length-remove k (suc j) m s.1, length-remove_le k m)

pub SameKeys-self {ℓ} : {V : Type ℓ} (m : SortedMap V) → SameKeys m m
SameKeys-self [] = tt
SameKeys-self ((k, v) ∷ m) = (refl, SameKeys-self m)

pub SameKeys-trans {ℓ κ ν} :
    {V : Type ℓ} {W : Type κ} {X : Type ν} (a : SortedMap V) (b : SortedMap W) (c : SortedMap X)
    → SameKeys a b
    → SameKeys b c
    → SameKeys a c
SameKeys-trans [] [] c s t = t
SameKeys-trans [] (y ∷ b) c s t = elim s [ ]
SameKeys-trans (x ∷ a) [] c s t = elim s [ ]
SameKeys-trans (x ∷ a) (y ∷ b) [] s t = elim t [ ]
SameKeys-trans (x ∷ a) (y ∷ b) (z ∷ c) s t = (s.0 ∙ t.0, SameKeys-trans a b c s.1 t.1)

-- Writing under a key that is there changes no key.
pub insert-SameKeys {ℓ} :
    {V : Type ℓ} (k low : ℕ) (v : V) (m : SortedMap V)
    → Above low m
    → has_key k m ≡ true
    → SameKeys m (insert k v m)
unfolding insert has_key
insert-SameKeys k low v [] s h = cc
insert-SameKeys k low v ((j, w) ∷ m) s h =
    ground (arith, insert-SameKeys k (suc j) v m s.1, le_key k (suc j) m s.1, SameKeys-self m)
