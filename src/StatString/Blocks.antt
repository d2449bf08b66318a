-- ===== src/StatString/Blocks.antt =====
-- The output of `encode` described block by block.
use mathlib.Core.List.{append-nil, append_assoc}
use w3c_flo.Common.{
  ℕ, suc, ◌+◌, ◌-◌, ◌%◌, ◌≡◌, ◌≢◌, ◌⊎◌, refl, ap, ◌∙◌, List, [], ◌∷◌, ◌++◌, ◌==◌, if◌then◌else◌,
  length, length-append, arith, ℕ_discrete, inl, inr,
}
use w3c_flo.StatString.{encode, Encoder, insert_at, encode_byte, mark, encode_step, encode_from}

-- The control byte of a block that stands at place `k` with bits `m`, once `src` has been read.
unfoldable pub block_mask : ℕ → ℕ → List ℕ → ℕ
block_mask k m [] = m
block_mask k m (b ∷ src) =
    let rest = block_mask (suc k) (mark k b m) src in if k == 6 then mark k b m else rest

-- The control byte of the block that `src` begins.
unfoldable pub header : List ℕ → List ℕ
header [] = []
header (b ∷ src) = block_mask 0 1 (b ∷ src) ∷ []

-- What is written from place `k` of a block on.
unfoldable pub block_tail : ℕ → List ℕ → List ℕ
block_tail k [] = []
block_tail k (b ∷ src) =
    let rest = block_tail (if k == 6 then 0 else suc k) src in
    encode_byte b ∷ (if k == 6 then header src ++ rest else rest)

pub header_nil : header [] ≡ []
unfolding header
header_nil = refl

-- An insertion behind `done` closes the block.
insert_at-append :
    (done pending : List ℕ) (x : ℕ)
    → insert_at (done ++ pending) (length done) x ≡ done ++ (x ∷ pending)
unfolding insert_at
insert_at-append [] pending x = refl
insert_at-append (d ∷ done) pending x = ap (◌∷◌ d) (insert_at-append done pending x)

abbrev state : ℕ → List ℕ → List ℕ → Encoder
state m done pending = record { mask = m; out = done ++ pending }

encode_step_open :
    (n i b m : ℕ) (done pending : List ℕ)
    → i % 7 ≢ 6
    → i ≢ n - 1
    → encode_step n i b (state m done pending)
      ≡ state (mark (i % 7) b m) done (pending ++ (encode_byte b ∷ []))
unfolding encode_step
encode_step_open n i b m done pending h k =
    ground (arith, append_assoc done pending (encode_byte b ∷ []))

encode_step_close :
    (n i b m : ℕ) (done pending : List ℕ)
    → length pending ≡ i % 7
    → (i % 7 ≡ 6) ⊎ (i ≡ n - 1)
    → encode_step n i b (state m done pending)
      ≡ state 1 (done ++ (mark (i % 7) b m ∷ (pending ++ (encode_byte b ∷ [])))) []
unfolding encode_step
encode_step_close n i b m done pending e h =
    let out = pending ++ (encode_byte b ∷ []) in
    ground (
      arith,
      append_assoc done pending (encode_byte b ∷ []),
      length-append done out,
      length-append pending (encode_byte b ∷ []),
      insert_at-append done out (mark (i % 7) b m),
      append-nil (done ++ (mark (i % 7) b m ∷ out)),
    )

-- The rest of the loop, behind the byte at index `i`.
abbrev encode_from_rest : ℕ → ℕ → List ℕ → Encoder → List ℕ
encode_from_rest n i src e = encode_from n (suc i) e src

pub block_mask_full : (b m k : ℕ) (src : List ℕ) → k ≡ 6 → block_mask k m (b ∷ src) ≡ mark k b m
unfolding block_mask
block_mask_full b m k src e = ground arith

pub block_mask_more :
    (b m k : ℕ) (src : List ℕ)
    → k ≢ 6
    → block_mask k m (b ∷ src) ≡ block_mask (suc k) (mark k b m) src
unfolding block_mask
block_mask_more b m k src e = ground arith

pub block_mask_last : (b m k : ℕ) → block_mask k m (b ∷ []) ≡ mark k b m
unfolding block_mask
block_mask_last b m k = ground arith

pub block_tail_full :
    (b k : ℕ) (src : List ℕ)
    → k ≡ 6
    → block_tail k (b ∷ src) ≡ encode_byte b ∷ (header src ++ block_tail 0 src)
unfolding block_tail
block_tail_full b k src e = ground arith

pub block_tail_more :
    (b k : ℕ) (src : List ℕ)
    → k ≢ 6
    → block_tail k (b ∷ src) ≡ encode_byte b ∷ block_tail (suc k) src
unfolding block_tail
block_tail_more b k src e = ground arith

pub block_tail_last : (b k : ℕ) → block_tail k (b ∷ []) ≡ encode_byte b ∷ []
unfolding block_tail header
block_tail_last b k = ground arith

pub header_cons : (b : ℕ) (src : List ℕ) → header (b ∷ src) ≡ block_mask 0 1 (b ∷ src) ∷ []
unfolding header
header_cons b src = refl

suc_mod_full : (i : ℕ) → i % 7 ≡ 6 → suc i % 7 ≡ 0
suc_mod_full i h = omega arith

suc_mod_more : (i : ℕ) → i % 7 ≢ 6 → suc i % 7 ≡ suc (i % 7)
suc_mod_more i h = omega arith

-- The loop writes the blocks, one after another.
pub encode_from-block_tail :
    (n i m b : ℕ) (done pending src : List ℕ)
    → length pending ≡ i % 7
    → i + length src + 1 ≡ n
    → encode_from n i (state m done pending) (b ∷ src)
      ≡ done ++ (block_mask (i % 7) m (b ∷ src) ∷ (pending ++ block_tail (i % 7) (b ∷ src)))
unfolding encode_from
encode_from-block_tail n i m b done pending [] e h =
    ap (encode_from_rest n i []) (encode_step_close n i b m done pending e (inr (omega arith)))
    ∙ rw (append-nil, block_mask_last b m (i % 7), block_tail_last b (i % 7))
encode_from-block_tail n i m b done pending (c ∷ src) e h = elim (ℕ_discrete (i % 7) 6) [
  | yes full ↦
      let done' = done ++ (mark (i % 7) b m ∷ (pending ++ (encode_byte b ∷ []))) in
      ap (encode_from_rest n i (c ∷ src)) (encode_step_close n i b m done pending e (inl full))
      ∙ encode_from-block_tail n (suc i) 1 c done' [] src (rw (suc_mod_full i full)) (omega arith)
      ∙ simp (
        suc_mod_full i full,
        block_mask_full b m (i % 7) (c ∷ src) full,
        block_tail_full b (i % 7) (c ∷ src) full,
        header_cons c src,
        append_assoc,
      )
  | no more ↦
      let pending' = pending ++ (encode_byte b ∷ []) in
      ap (encode_from_rest n i (c ∷ src)) (encode_step_open n i b m done pending more (omega arith))
      ∙ encode_from-block_tail n (suc i) (mark (i % 7) b m) c done pending' src
          (omega (arith, length-append pending (encode_byte b ∷ []))) (omega arith)
      ∙ simp (
        suc_mod_more i more,
        block_mask_more b m (i % 7) (c ∷ src) more,
        block_tail_more b (i % 7) (c ∷ src) more,
        append_assoc,
      )
]

-- `encode` writes a control byte for each block of seven, then the block.
pub encode-block_tail : (src : List ℕ) → encode src ≡ header src ++ block_tail 0 src
unfolding encode header block_tail
encode-block_tail [] = refl
encode-block_tail (b ∷ src) =
    encode_from-block_tail (suc (length src)) 0 1 b [] [] src refl (omega arith)
