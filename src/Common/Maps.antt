-- ===== src/Common/Maps.antt =====
-- The standard library's BTreeMap with numbers as keys: its entries in the order of the keys.
pub mod Keys
use Prim.Native.Nat.{ℕ, suc, ◌≤◌, ◌<◌, compare, Ordering}
use mathlib.Core.Path.{◌≡◌, refl, subst, ap₂}
use mathlib.Core.Bool.{Bool, true, false}
use mathlib.Core.List.{List, [], ◌∷◌}
use mathlib.Core.Option.{Option, none, some}
use native.Mathlib.Omega.{arith}
use w3c_flo.Common.Tests.{◌==◌, if◌then◌else◌, Bool-cases}
use w3c_flo.Common.Lists.{length}
use w3c_flo.Common.Predicates.{Every, Every-map}
use mathlib.Core.Logic.{◌≢◌, ◌⊎◌, inl, inr}
use native.Mathlib.Decide.{ℕ_discrete}

abbrev pub SortedMap {ℓ} : Type ℓ → Type ℓ
SortedMap V = List (ℕ × V)

-- `BTreeSet`.
abbrev pub SortedSet : Type 0
SortedSet = SortedMap (Unit {0})

module _ {ℓ} {V : Type ℓ} where
  unfoldable pub get : ℕ → SortedMap V → Option V
  get k [] = none
  get k ((j, v) ∷ m) = if j == k then some v else get k m

  unfoldable pub has_key : ℕ → SortedMap V → Bool
  has_key k [] = false
  has_key k ((j, v) ∷ m) = if j == k then true else has_key k m

  unfoldable pub insert : ℕ → V → SortedMap V → SortedMap V
  insert k v [] = (k, v) ∷ []
  insert k v ((j, w) ∷ m) =
      let rest = insert k v m in
      elim (compare k j) [
        | Ordering.lt ↦ (k, v) ∷ (j, w) ∷ m
        | Ordering.eq ↦ (k, v) ∷ m
        | Ordering.gt ↦ (j, w) ∷ rest
      ]

  unfoldable pub remove : ℕ → SortedMap V → SortedMap V
  remove k [] = []
  remove k ((j, v) ∷ m) = let rest = remove k m in if j == k then rest else (j, v) ∷ rest

  pub get-insert :
      (k j : ℕ) (v : V) (m : SortedMap V)
      → get j (insert k v m) ≡ (if k == j then some v else get j m)
  unfolding get insert
  get-insert k j v [] = refl
  get-insert k j v ((i, w) ∷ m) = ground (arith, get-insert k j v m)

  pub get-remove :
      (k j : ℕ) (m : SortedMap V) → get j (remove k m) ≡ (if k == j then none else get j m)
  unfolding get remove
  get-remove k j [] = ground arith
  get-remove k j ((i, w) ∷ m) = ground (arith, get-remove k j m)

  pub has_key-insert :
      (k j : ℕ) (v : V) (m : SortedMap V)
      → has_key j (insert k v m) ≡ (if k == j then true else has_key j m)
  unfolding has_key insert
  has_key-insert k j v [] = refl
  has_key-insert k j v ((i, w) ∷ m) = ground (arith, has_key-insert k j v m)

  pub has_key-remove :
      (k j : ℕ) (m : SortedMap V) → has_key j (remove k m) ≡ (if k == j then false else has_key j m)
  unfolding has_key remove
  has_key-remove k j [] = ground arith
  has_key-remove k j ((i, w) ∷ m) = ground (arith, has_key-remove k j m)

  pub has_key-get : (k : ℕ) (m : SortedMap V) {v : V} → get k m ≡ some v → has_key k m ≡ true
  unfolding get has_key
  has_key-get k [] h = cc
  has_key-get k ((j, w) ∷ m) {v = v} h = ground (arith, has_key-get k m {v = v})

  pub get-has_key : (k : ℕ) (m : SortedMap V) → has_key k m ≡ true → (v : V) × (get k m ≡ some v)
  unfolding get has_key
  get-has_key k [] h = cc
  get-has_key k ((j, w) ∷ m) h = elim (Bool-cases (j == k)) [
    | inl here ↦ (w, ground arith)
    | inr there ↦ let (v, e) = get-has_key k m (ground arith) in (v, ground arith)
  ]

  pub get-insert_self : (k : ℕ) (v : V) (m : SortedMap V) → get k (insert k v m) ≡ some v
  get-insert_self k v m = ground (arith, get-insert k k v m)

  pub get-insert_other :
      (k j : ℕ) (v : V) (m : SortedMap V) → k ≢ j → get j (insert k v m) ≡ get j m
  get-insert_other k j v m ne = ground (arith, get-insert k j v m)

  pub get-insert_cases :
      (k j : ℕ) (v : V) (m : SortedMap V) {w : V}
      → get j (insert k v m) ≡ some w
      → ((k ≡ j) × (v ≡ w)) ⊎ ((k ≢ j) × (get j m ≡ some w))
  get-insert_cases k j v m h = elim (ℕ_discrete k j) [
    | yes e ↦ inl (e, ground (arith, get-insert k j v m))
    | no ne ↦ inr (ne, ground (arith, get-insert k j v m))
  ]

  pub get-remove_cases :
      (k j : ℕ) (m : SortedMap V) {w : V}
      → get j (remove k m) ≡ some w
      → (k ≢ j) × (get j m ≡ some w)
  get-remove_cases k j m h = elim (ℕ_discrete k j) [
    | yes e ↦ absurd (ground (arith, get-remove k j m))
    | no ne ↦ (ne, ground (arith, get-remove k j m))
  ]

  pub has_key-insert_cases :
      (k j : ℕ) (v : V) (m : SortedMap V)
      → has_key j (insert k v m) ≡ true
      → (k ≡ j) ⊎ (has_key j m ≡ true)
  has_key-insert_cases k j v m h = elim (ℕ_discrete k j) [
    | yes e ↦ inl e
    | no ne ↦ inr (ground (arith, has_key-insert k j v m))
  ]

  pub has_key-insert_old :
      (k j : ℕ) (v : V) (m : SortedMap V) → has_key j m ≡ true → has_key j (insert k v m) ≡ true
  has_key-insert_old k j v m h = ground (arith, has_key-insert k j v m)

  pub has_key-remove_cases :
      (k j : ℕ) (m : SortedMap V) → has_key j (remove k m) ≡ true → (k ≢ j) × (has_key j m ≡ true)
  has_key-remove_cases k j m h = elim (ℕ_discrete k j) [
    | yes e ↦ absurd (ground (arith, has_key-remove k j m))
    | no ne ↦ (ne, ground (arith, has_key-remove k j m))
  ]

  -- The keys grow, from `low` on.
  abbrev pub Above : ℕ → SortedMap V → Type 0
  Above low [] = Unit {0}
  Above low ((j, v) ∷ m) = (low ≤ j) × Above (suc j) m

  abbrev pub IsSorted : SortedMap V → Type 0
  IsSorted m = Above 0 m

  pub Above-mono : (low high : ℕ) (m : SortedMap V) → low ≤ high → Above high m → Above low m
  Above-mono low high [] h s = tt
  Above-mono low high ((j, v) ∷ m) h s = (omega arith, s.1)

  pub insert-Above :
      (k low : ℕ) (v : V) (m : SortedMap V) → low ≤ k → Above low m → Above low (insert k v m)
  unfolding insert
  insert-Above k low v [] h s = (h, tt)
  insert-Above k low v ((j, w) ∷ m) h s =
      ground (arith, insert-Above k (suc j) v m, Above-mono (suc k) (suc j) m)

  pub remove-Above : (k low : ℕ) (m : SortedMap V) → Above low m → Above low (remove k m)
  unfolding remove
  remove-Above k low [] s = tt
  remove-Above k low ((j, w) ∷ m) s =
      ground (arith, remove-Above k (suc j) m, Above-mono low (suc j) (remove k m))

  pub le_key : (k low : ℕ) (m : SortedMap V) → Above low m → has_key k m ≡ true → low ≤ k
  unfolding has_key
  le_key k low [] s h = cc
  le_key k low ((j, w) ∷ m) s h = ground (arith, le_key k (suc j) m s.1)

-- Writing under a key that is there does not change the length.
pub length-insert_old {ℓ} :
    {V : Type ℓ} (k low : ℕ) (v : V) (m : SortedMap V)
    → Above low m
    → has_key k m ≡ true
    → length (insert k v m) ≡ length m
unfolding insert has_key
length-insert_old k low v [] s h = cc
length-insert_old k low v ((j, w) ∷ m) s h =
    ground (arith, length-insert_old k (suc j) v m s.1, le_key k (suc j) m s.1)

module _ {ℓ κ} {V : Type ℓ} (P : ℕ × V → Type κ) where
  pub Every-get : (k : ℕ) (m : SortedMap V) {v : V} → Every P m → get k m ≡ some v → P (k, v)
  unfolding get
  Every-get k [] s h = cc
  Every-get k ((j, w) ∷ m) {v = v} s h = elim (Bool-cases (j == k)) [
    | inl here ↦ at_head k j v w (ground arith) (ground arith) s.0
    | inr there ↦ Every-get k m s.1 (ground arith)
  ]
    where
      at_head : (k j : ℕ) (v w : V) → j ≡ k → w ≡ v → P (j, w) → P (k, v)
      at_head k j v w e f p = subst (λ x. P x) (ap₂ (λ a b. (a, b)) e f) p

  pub Every-insert :
      (k : ℕ) (v : V) (m : SortedMap V) → P (k, v) → Every P m → Every P (insert k v m)
  unfolding insert
  Every-insert k v [] p s = (p, tt)
  Every-insert k v ((j, w) ∷ m) p s = ground (arith, Every-insert k v m)

-- In a sorted map each entry is the one its key finds.
pub Above-entries {ℓ} :
    {V : Type ℓ} (low : ℕ) (m : SortedMap V) → Above low m → Every (λ e. get e.0 m ≡ some e.1) m
unfolding get
Above-entries low [] s = tt
Above-entries low ((j, v) ∷ m) s = (
  ground arith,
  Every-map (λ e h. ground (arith, h, le_key e.0 (suc j) m s.1, has_key-get e.0 m h)) m
      (Above-entries (suc j) m s.1),
)

pub length-has_key {ℓ} : {V : Type ℓ} (k : ℕ) (m : SortedMap V) → has_key k m ≡ true → 0 < length m
unfolding has_key
length-has_key k [] h = cc
length-has_key k (e ∷ m) h = omega arith

pub two_keys {ℓ} :
    {V : Type ℓ} (j k : ℕ) (m : SortedMap V)
    → j ≢ k
    → has_key j m ≡ true
    → has_key k m ≡ true
    → 1 < length m
unfolding has_key
two_keys j k [] ne h g = cc
two_keys j k ((i, v) ∷ []) ne h g = ground arith
two_keys j k (e ∷ f ∷ m) ne h g = omega arith

abbrev pub keys {ℓ} : {V : Type ℓ} → SortedMap V → List ℕ
keys [] = []
keys ((k, _) ∷ m) = k ∷ keys m

-- `BTreeSet::extend`.
unfoldable pub extend : List ℕ → SortedSet → SortedSet
extend [] s = s
extend (k ∷ ks) s = extend ks (insert k tt s)
