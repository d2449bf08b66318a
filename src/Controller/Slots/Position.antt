-- ===== src/Controller/Slots/Position.antt =====
-- What `position` finds.
use w3c_flo.Common.{
  ℕ, zero, suc, ◌<◌, ◌≡◌, refl, ap, subst, inl, inr, Bool, true, false, not, none, some, List, [],
  ◌∷◌, if◌then◌else◌, Every, get_elem?, length, arith, Bool-cases, Option-cases, has, count_true,
  ◌∙◌, lt-length_of_get_elem?,
}
use w3c_flo.Controller.Slots.{position, first_color}

-- The item at `i` passes the test, and no item before it does.
pub record IsFirst {ℓ} {A : Type ℓ} (p : A → Bool) (xs : List A) (i : ℕ) : Type ℓ where
  pub item : A
  pub at : get_elem? xs i ≡ some item
  pub passes : p item ≡ true
  pub first : (j : ℕ) (y : A) → j < i → get_elem? xs j ≡ some y → p y ≡ false

module _ {ℓ} {A : Type ℓ} (p : A → Bool) where
  at_head : (x : A) (xs : List A) → p x ≡ true → IsFirst p (x ∷ xs) 0
  at_head x xs h = record {
    item = x;
    at = refl;
    passes = h;
    first = λ j y l e. absurd (omega arith);
  }

  later : (x : A) (xs : List A) (j : ℕ) → p x ≡ false → IsFirst p xs j → IsFirst p (x ∷ xs) (suc j)
  later x xs j h f = record {
    item = f.item;
    at = f.at;
    passes = f.passes;
    first = elim [ zero ↦ λ y l e. ground arith | suc k ↦ λ y l e. f.first k y (omega arith) e ];
  }

  pub position-IsFirst : (xs : List A) (i : ℕ) → position p xs ≡ some i → IsFirst p xs i
  unfolding position
  position-IsFirst [] i h = cc
  position-IsFirst (x ∷ xs) i h = elim (Bool-cases (p x)) [
    | inl here ↦ subst (IsFirst p (x ∷ xs)) (ground arith) (at_head x xs here)
    | inr not_here ↦ elim (Option-cases (position p xs)) [
      | inl nowhere ↦ absurd (ground arith)
      | inr (j, there) ↦
          subst (IsFirst p (x ∷ xs)) (ground arith)
            (later x xs j not_here (position-IsFirst xs j there))
    ]
  ]

  pub position-none : (xs : List A) → position p xs ≡ none → Every (λ x. p x ≡ false) xs
  unfolding position
  position-none [] h = tt
  position-none (x ∷ xs) h = (ground arith, position-none xs (ground arith))

  -- A test that some item passes is found.
  pub position-some :
      (xs : List A) (i : ℕ) {x : A}
      → get_elem? xs i ≡ some x
      → p x ≡ true
      → (j : ℕ) × (position p xs ≡ some j)
  unfolding position
  position-some [] i h e = cc
  position-some (y ∷ xs) zero h e = (0, ground arith)
  position-some (y ∷ xs) (suc i) h e =
      let (j, there) = position-some xs i h e in
      elim (Bool-cases (p y)) [
        | inl here ↦ (0, ground arith)
        | inr _ ↦ (if p y then 0 else suc j, ground arith)
      ]

all_set : (xs : List Bool) → Every (λ x. not x ≡ false) xs → count_true xs ≡ length xs
all_set [] h = refl
all_set (true ∷ xs) h = ap suc (all_set xs h.1)
all_set (false ∷ xs) h = absurd (ground arith)

pub get_or_of_get_elem? :
    (xs : List Bool) (i : ℕ) {b : Bool} → get_elem? xs i ≡ some b → has xs i ≡ b
get_or_of_get_elem? [] i h = cc
get_or_of_get_elem? (x ∷ xs) zero h = ground arith
get_or_of_get_elem? (x ∷ xs) (suc i) h = get_or_of_get_elem? xs i h

-- Where fewer colors are set than there are, the first color is a color that is not set.
pub first_color_free :
    (colors : List Bool)
    → count_true colors < length colors
    → (first_color colors < length colors) × (has colors (first_color colors) ≡ false)
unfolding first_color
first_color_free colors h = elim (Option-cases (position not colors)) [
  | inl full ↦ absurd (omega (arith, all_set colors (position-none not colors full)))
  | inr (c, e) ↦
      let f = position-IsFirst not colors c e in
      rw (e, first_color)
        (lt-length_of_get_elem? colors c f.at, get_or_of_get_elem? colors c f.at ∙ ground arith)
]
