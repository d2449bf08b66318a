-- ===== src/StatString/Length.antt =====
-- `encoded_len` is the length of what `encode` writes.
use w3c_flo.Common.{
  ℕ, suc, ◌+◌, ◌/◌, ◌≡◌, ◌<◌, ◌∙◌, ap, refl, List, [], ◌∷◌, length, arith, ℕ_discrete,
}
use w3c_flo.StatString.{encode, encoded_len}
use w3c_flo.StatString.Blocks.{
  block_tail, block_tail_full, block_tail_more, block_tail_last, header_cons, encode-block_tail,
}

length-block_tail :
    (k b : ℕ) (src : List ℕ)
    → k < 7
    → length (block_tail k (b ∷ src)) ≡ suc (length src) + (length src + k) / 7
length-block_tail k b [] h = rw (block_tail_last b k) (omega arith)
length-block_tail k b (c ∷ src) h = elim (ℕ_discrete k 6) [
  | yes full ↦
      rw (block_tail_full b k (c ∷ src) full, header_cons c src)
        (omega (arith, length-block_tail 0 c src (omega arith)))
  | no more ↦
      rw (block_tail_more b k (c ∷ src) more)
        (omega (arith, length-block_tail (suc k) c src (omega arith)))
]

-- The length that is reserved for the output is the length of the output.
pub length-encode : (src : List ℕ) → length (encode src) ≡ encoded_len (length src)
unfolding encoded_len
length-encode [] = unfold encode in refl
length-encode (b ∷ src) =
    ap length (encode-block_tail (b ∷ src))
    ∙ rw (header_cons b src) (ground (arith, length-block_tail 0 b src (omega arith)))
