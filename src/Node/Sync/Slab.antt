-- ===== src/Node/Sync/Slab.antt =====
-- The operations of the crate `slab` that `SyncMap` calls, and what its documentation says of them.
use w3c_flo.Common.{ℕ, ◌≡◌, Option, none, some, ◌==◌, if◌then◌else◌}

-- `read` and `write` are an index of a value, `alloc` is `insert`, `free` is `remove`, for a key that is
-- occupied: `remove` panics for another.
pub record SlabOps (A : Type 0) : Type 1 where
  pub Slab : Type 0
  pub empty : Slab
  pub alloc : A → Slab → ℕ × Slab
  pub read : ℕ → Slab → Option A
  pub write : ℕ → A → Slab → Slab
  pub free : ℕ → Slab → Slab

-- A new value stands under a key that was free; a key that is not touched keeps its value.
pub record SlabLaws {A : Type 0} (S : SlabOps A) : Type 0 where
  pub alloc_fresh : (a : A) (s : S.Slab) → S.read (S.alloc a s).0 s ≡ none
  pub read-alloc :
      (a : A) (s : S.Slab) (k : ℕ)
      → S.read k (S.alloc a s).1 ≡ (if (S.alloc a s).0 == k then some a else S.read k s)
  pub read-write :
      (k j : ℕ) (a b : A) (s : S.Slab)
      → S.read k s ≡ some b
      → S.read j (S.write k a s) ≡ (if k == j then some a else S.read j s)
  pub read-free :
      (k j : ℕ) (s : S.Slab) → S.read j (S.free k s) ≡ (if k == j then none else S.read j s)
