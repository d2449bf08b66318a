-- ===== src/Common/Predicates.antt =====
-- Predicates that hold at each item of a list, and boolean lists used as sets of numbers.
use Prim.Native.Nat.{ℕ, zero, suc, ◌+◌, ◌≤◌, ◌<◌}
use mathlib.Core.Path.{◌≡◌, refl, sym}
use mathlib.Core.Logic.{◌⊎◌, ◌≢◌, inl, inr}
use mathlib.Core.Option.{some-injective}
use mathlib.Core.Bool.{Bool, true, false}
use mathlib.Core.List.{List, [], ◌∷◌, ◌++◌}
use mathlib.Core.Option.{some}
use native.Mathlib.Omega.{arith}
use w3c_flo.Common.Tests.{if◌then◌else◌}
use w3c_flo.Common.Lists.{length, get_elem?, set, get_or, replicate, take}

module _ {ℓ κ} {A : Type ℓ} (P : A → Type κ) where
  abbrev pub Every : List A → Type κ
  Every [] = Unit
  Every (x ∷ xs) = P x × Every xs

  pub Every-get_elem? : (xs : List A) (i : ℕ) {x : A} → Every xs → get_elem? xs i ≡ some x → P x
  Every-get_elem? [] i h e = cc
  Every-get_elem? (y ∷ xs) zero {x} h e = subst_some y x e h.0
    where
      subst_some : (a b : A) → some a ≡ some b → P a → P b
      subst_some a b q p = ground arith
  Every-get_elem? (y ∷ xs) (suc i) h e = Every-get_elem? xs i h.1 e

  pub Every-set : (xs : List A) (i : ℕ) (x : A) → Every xs → P x → Every (set xs i x)
  Every-set [] i x h p = h
  Every-set (y ∷ xs) zero x h p = (p, h.1)
  Every-set (y ∷ xs) (suc i) x h p = (h.0, Every-set xs i x h.1 p)

  pub Every-append : (xs ys : List A) → Every xs → Every ys → Every (xs ++ ys)
  Every-append [] ys h g = g
  Every-append (x ∷ xs) ys h g = (h.0, Every-append xs ys h.1 g)

  pub Every-take : (n : ℕ) (xs : List A) → Every xs → Every (take n xs)
  Every-take zero xs h = tt
  Every-take (suc n) [] h = tt
  Every-take (suc n) (x ∷ xs) h = (h.0, Every-take n xs h.1)

module _ {ℓ κ} {A : Type ℓ} {P Q : A → Type κ} where
  pub Every-map : ((x : A) → P x → Q x) → (xs : List A) → Every P xs → Every Q xs
  Every-map f [] h = h
  Every-map f (x ∷ xs) h = (f x h.0, Every-map f xs h.1)

module _ {ℓ} {A : Type ℓ} (p : A → Bool) where
  -- How many items pass the test.
  abbrev pub count : List A → ℕ
  count [] = 0
  count (x ∷ xs) = if p x then suc (count xs) else count xs

  pub count-le-length : (xs : List A) → count xs ≤ length xs
  count-le-length [] = omega arith
  count-le-length (x ∷ xs) = ground (arith, count-le-length xs)

  pub count-lt-length :
      (xs : List A) (i : ℕ) {x : A} → get_elem? xs i ≡ some x → p x ≡ false → count xs < length xs
  count-lt-length [] i h e = cc
  count-lt-length (y ∷ xs) zero h e = ground (arith, count-le-length xs)
  count-lt-length (y ∷ xs) (suc i) h e = ground (arith, count-lt-length xs i h e)

pub lt-length_of_get_elem? {ℓ} :
    {A : Type ℓ} (xs : List A) (i : ℕ) {x : A} → get_elem? xs i ≡ some x → i < length xs
lt-length_of_get_elem? [] i h = cc
lt-length_of_get_elem? (y ∷ xs) zero h = omega arith
lt-length_of_get_elem? (y ∷ xs) (suc i) h = omega (arith, lt-length_of_get_elem? xs i h)

pub get_elem?_of_lt {ℓ} :
    {A : Type ℓ} (xs : List A) (i : ℕ) → i < length xs → (x : A) × (get_elem? xs i ≡ some x)
get_elem?_of_lt [] i h = absurd (omega arith)
get_elem?_of_lt (y ∷ xs) zero h = (y, refl)
get_elem?_of_lt (y ∷ xs) (suc i) h = get_elem?_of_lt xs i (omega arith)

-- `c` is in the set.
abbrev pub has : List Bool → ℕ → Bool
has xs c = get_or xs c false

abbrev pub count_true : List Bool → ℕ
count_true = count (λ b. b)

pub count_true-set : (xs : List Bool) (c : ℕ) → count_true (set xs c true) ≤ count_true xs + 1
count_true-set [] c = omega arith
count_true-set (x ∷ xs) zero = ground arith
count_true-set (x ∷ xs) (suc c) = ground (arith, count_true-set xs c)

pub has-set_self : (xs : List Bool) (c : ℕ) → c < length xs → has (set xs c true) c ≡ true
has-set_self [] c h = absurd (omega arith)
has-set_self (x ∷ xs) zero h = refl
has-set_self (x ∷ xs) (suc c) h = has-set_self xs c (omega arith)

pub has-set : (xs : List Bool) (c d : ℕ) → has xs d ≡ true → has (set xs c true) d ≡ true
has-set [] c d h = h
has-set (x ∷ xs) zero zero h = refl
has-set (x ∷ xs) zero (suc d) h = h
has-set (x ∷ xs) (suc c) zero h = h
has-set (x ∷ xs) (suc c) (suc d) h = has-set xs c d h

pub count_true-replicate : (n : ℕ) → count_true (replicate n false) ≡ 0
count_true-replicate zero = refl
count_true-replicate (suc n) = count_true-replicate n

-- What stands at index `k` after a write at index `i`.
pub get_elem?-set_cases {ℓ} :
    {A : Type ℓ} (xs : List A) (i k : ℕ) (x : A) {t : A}
    → get_elem? (set xs i x) k ≡ some t
    → ((i ≡ k) × (t ≡ x)) ⊎ ((i ≢ k) × (get_elem? xs k ≡ some t))
get_elem?-set_cases [] i k x h = cc
get_elem?-set_cases (y ∷ xs) zero zero x {t} h = inl (refl, sym (some-injective x t h))
get_elem?-set_cases (y ∷ xs) zero (suc k) x h = inr (λ e. absurd (omega arith), h)
get_elem?-set_cases (y ∷ xs) (suc i) zero x h = inr (λ e. absurd (omega arith), h)
get_elem?-set_cases (y ∷ xs) (suc i) (suc k) x h = elim (get_elem?-set_cases xs i k x h) [
  | inl (p, e) ↦ inl (omega arith, e)
  | inr (ne, e) ↦ inr (λ p. ne (omega arith), e)
]
