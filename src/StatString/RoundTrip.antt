-- ===== src/StatString/RoundTrip.antt =====
-- `decode` undoes `encode`.
use native.Mathlib.Decide.{ℕ_discrete}
use native.Mathlib.Nat.{pow-suc}
use native.Mathlib.Numerals.{towards_suc}
use w3c_flo.Common.{
  ℕ, suc, ◌+◌, ◌%◌, ◌^◌, ◌≤◌, ◌<◌, ◌≡◌, ◌≢◌, refl, ap, ◌∙◌, List, [], ◌∷◌, ◌==◌, arith,
}
use w3c_flo.StatString.{encode_byte, mark, decode_byte, decode_from, decode, encode}
use w3c_flo.StatString.Bits.{is_clear, is_clear-bit_or, is_clear_above, bit_or-lt}
use w3c_flo.StatString.Blocks.{
  block_mask, block_tail, block_mask_full, block_mask_more, block_tail_full, block_tail_more,
  block_tail_last, header_cons, encode-block_tail,
}

-- Each item of the list is a byte.
abbrev pub AreBytes : List ℕ → Type 0
AreBytes [] = Unit {0}
AreBytes (b ∷ src) = (b < 256) × AreBytes src

-- `m` holds bits 0 to `k` of a control byte.
abbrev HasBits : ℕ → ℕ → Type 0
HasBits k m = (m < 256) × (m < 2 ^ (k + 1))

two_pow_suc : (k : ℕ) → 2 ^ (suc k + 1) ≡ 2 ^ (k + 1) + 2 ^ (k + 1)
two_pow_suc k = simp towards_suc (omega (arith, pow-suc 2 (suc k)))

two_pow_shift : (k : ℕ) → 2 ^ (suc k + 1) ≡ 2 ^ (k + 2)
two_pow_shift k = ap (λ (t : ℕ). 2 ^ t) (omega arith)

mark-HasBits : (k b m : ℕ) → k < 7 → HasBits k m → HasBits (suc k) (mark k b m)
unfolding mark
mark-HasBits k b m hk (h, l) = ground (arith, bit_or-lt m k h hk l, two_pow_suc k, two_pow_shift k)

is_clear-mark_low : (k b m j : ℕ) → k < 7 → m < 256 → j ≤ k → is_clear (mark k b m) j ≡ is_clear m j
unfolding mark
is_clear-mark_low k b m j hk hm hj = ground (arith, is_clear-bit_or m k j hm hk (omega arith))

is_clear-mark : (k b m : ℕ) → k < 7 → HasBits k m → is_clear (mark k b m) (k + 1) ≡ (b % 2 == 0)
unfolding mark
is_clear-mark k b m hk (hm, h) =
    ground (arith, is_clear-bit_or m k (k + 1) hm hk (omega arith), is_clear_above m k hm hk h)

-- The bytes behind place `k` do not touch the bits up to `k`.
is_clear-block_mask :
    (k m j : ℕ) (src : List ℕ)
    → k < 7
    → HasBits k m
    → j ≤ k
    → is_clear (block_mask k m src) j ≡ is_clear m j
unfolding block_mask
is_clear-block_mask k m j [] hk h hj = refl
is_clear-block_mask k m j (b ∷ src) hk h hj = elim (ℕ_discrete k 6) [
  | yes full ↦ rw (block_mask_full b m k src full) (is_clear-mark_low k b m j hk h.0 hj)
  | no more ↦ rw (block_mask_more b m k src more) (
      is_clear-block_mask (suc k) (mark k b m) j src (omega arith) (mark-HasBits k b m hk h)
        (omega arith)
      ∙ is_clear-mark_low k b m j hk h.0 hj)
]

decode_byte-encode_byte :
    (mask j b : ℕ)
    → b < 256
    → is_clear mask j ≡ (b % 2 == 0)
    → decode_byte mask j (encode_byte b) ≡ b
unfolding decode_byte encode_byte
decode_byte-encode_byte mask j b h e = ground arith

decode_from_data :
    (i m x : ℕ) (xs : List ℕ)
    → i % 8 ≢ 0
    → decode_from i m (x ∷ xs) ≡ decode_byte m (i % 8) x ∷ decode_from (suc i) m xs
unfolding decode_from
decode_from_data i m x xs h = ground arith

decode_from_control :
    (i m x : ℕ) (xs : List ℕ) → i % 8 ≡ 0 → decode_from i m (x ∷ xs) ≡ decode_from (suc i) x xs
unfolding decode_from
decode_from_control i m x xs h = ground arith

first_HasBits : HasBits 0 1
first_HasBits = omega arith

-- The byte at place `k`, decoded under its control byte.
decode_from-encode_byte :
    (k m i b : ℕ) (src rest : List ℕ)
    → b < 256
    → k < 7
    → HasBits k m
    → i % 8 ≡ k + 1
    → decode_from i (block_mask k m (b ∷ src)) (encode_byte b ∷ rest)
      ≡ b ∷ decode_from (suc i) (block_mask k m (b ∷ src)) rest
decode_from-encode_byte k m i b src rest hb hk h e =
    let mask = block_mask k m (b ∷ src) in
    decode_from_data i mask (encode_byte b) rest (omega arith)
    ∙ ap (λ x. x ∷ decode_from (suc i) mask rest)
        (decode_byte-encode_byte mask (i % 8) b hb (
          rw e (elim (ℕ_discrete k 6) [
            | yes full ↦ rw (block_mask_full b m k src full) (is_clear-mark k b m hk h)
            | no more ↦ rw (block_mask_more b m k src more) (
                is_clear-block_mask (suc k) (mark k b m) (k + 1) src (omega arith)
                  (mark-HasBits k b m hk h) (omega arith)
                ∙ is_clear-mark k b m hk h)
          ])))

-- Decoding from place `k` of a block gives the rest of the source back.
decode_from-block_tail :
    (k m i : ℕ) (src : List ℕ)
    → AreBytes src
    → k < 7
    → HasBits k m
    → i % 8 ≡ k + 1
    → decode_from i (block_mask k m src) (block_tail k src) ≡ src
decode_from-block_tail k m i [] hs hk h e = unfold decode_from block_tail in refl
decode_from-block_tail k m i (b ∷ []) (hb, hs) hk h e =
    rw (block_tail_last b k)
      (decode_from-encode_byte k m i b [] [] hb hk h e ∙ unfold decode_from in refl)
decode_from-block_tail k m i (b ∷ c ∷ src) (hb, hs) hk h e = elim (ℕ_discrete k 6) [
  | yes full ↦
      rw (block_tail_full b k (c ∷ src) full, header_cons c src)
        (decode_from-encode_byte k m i b (c ∷ src) _ hb hk h e
          ∙ ap (◌∷◌ b) (
              decode_from_control (suc i) _ _ _ (omega arith)
              ∙ decode_from-block_tail 0 1 (suc (suc i)) (c ∷ src) hs (omega arith) first_HasBits
                  (omega arith)))
  | no more ↦ rw (block_tail_more b k (c ∷ src) more) (
      decode_from-encode_byte k m i b (c ∷ src) _ hb hk h e
      ∙ ap (◌∷◌ b) (
          rw (block_mask_more b m k (c ∷ src) more) (
            decode_from-block_tail (suc k) (mark k b m) (suc i) (c ∷ src) hs (omega arith)
              (mark-HasBits k b m hk h) (omega arith))))
]

-- Whatever bytes are encoded, decoding gives them back.
pub decode-encode : (src : List ℕ) → AreBytes src → decode (encode src) ≡ src
unfolding decode
decode-encode [] h = unfold encode in refl
decode-encode (b ∷ src) h =
    rw (encode-block_tail (b ∷ src), header_cons b src)
      (decode_from_control 0 0 _ _ (omega arith)
        ∙ decode_from-block_tail 0 1 1 (b ∷ src) h (omega arith) first_HasBits (omega arith))
