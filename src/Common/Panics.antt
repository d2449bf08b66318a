-- ===== src/Common/Panics.antt =====
-- The result of code that may panic, such as an index out of bounds.
use Prim.Native.Nat.{ℕ}
use mathlib.Core.Path.{◌≡◌, refl}
use mathlib.Core.List.{List}
use mathlib.Core.Option.{none, some}
use w3c_flo.Common.Lists.{get_elem?}

pub data Outcome {ℓ} (A : Type ℓ) : Type ℓ where
  done : A → Outcome A
  panic : Outcome A

infixl 5 ◌>>=◌
abbrev pub ◌>>=◌ {ℓ κ} : {A : Type ℓ} {B : Type κ} → Outcome A → (A → Outcome B) → Outcome B
done a >>= f = f a
panic >>= f = panic

-- `xs[i]`.
abbrev pub index {ℓ} : {A : Type ℓ} → List A → ℕ → Outcome A
index xs i = elim (get_elem? xs i) [ none ↦ panic | some x ↦ done x ]

pub >>=-eq-done {ℓ κ} :
    {A : Type ℓ} {B : Type κ} (m : Outcome A) (f : A → Outcome B) {b : B}
    → (m >>= f) ≡ done b
    → (a : A) × (m ≡ done a) × (f a ≡ done b)
>>=-eq-done (done a) f h = (a, refl, h)
>>=-eq-done panic f h = cc

pub >>=-index {ℓ κ} :
    {A : Type ℓ} {B : Type κ} (xs : List A) (i : ℕ) (f : A → Outcome B) {x : A}
    → get_elem? xs i ≡ some x
    → (index xs i >>= f) ≡ f x
>>=-index xs i f e = rw (index, e) refl
