-- ===== src/StatString/Bits.antt =====
-- Single bits of a control byte, by evaluation over all bytes.
use w3c_flo.Common.{
  ℕ, zero, suc, ◌+◌, ◌^◌, ◌<◌, ◌≡◌, refl, Bool, true, false, ◌&&◌, ◌==◌, ltb, if◌then◌else◌,
  bit_and, bit_or, arith,
}

-- Each value below the limit satisfies the row.
check_rows : (ℕ → Bool) → ℕ → Bool
check_rows row zero = true
check_rows row (suc limit) = check_rows row limit && row limit

row_of_table :
    (row : ℕ → Bool) (limit v : ℕ) → v < limit → check_rows row limit ≡ true → row v ≡ true
unfolding check_rows
row_of_table row (suc limit) v h t = ground (arith, row_of_table row limit v)
row_of_table row zero v h t = absurd (omega arith)

-- Bit `j` of `m` is clear.
abbrev pub is_clear : ℕ → ℕ → Bool
is_clear m j = bit_and m (2 ^ j) == 0

abbrev same : Bool → Bool → Bool
same true b = b
same false true = false
same false false = true

same→eq : (a b : Bool) → same a b ≡ true → a ≡ b
same→eq a b h = ground arith

abbrev set_row : ℕ → ℕ → ℕ → Bool
set_row m k j =
    same (is_clear (bit_or m (2 ^ (k + 1))) j) (if j == k + 1 then false else is_clear m j)

abbrev set_places : ℕ → ℕ → Bool
set_places m k = check_rows (λ j. set_row m k j) 8

abbrev set_bits : ℕ → Bool
set_bits m = check_rows (λ k. set_places m k) 7

set_table : check_rows set_bits 256 ≡ true
unfolding check_rows
set_table = refl

pub is_clear-bit_or :
    (m k j : ℕ)
    → m < 256
    → k < 7
    → j < 8
    → is_clear (bit_or m (2 ^ (k + 1))) j ≡ (if j == k + 1 then false else is_clear m j)
is_clear-bit_or m k j hm hk hj =
    let bits = row_of_table set_bits 256 m hm set_table in
    let places = row_of_table (λ k. set_places m k) 7 k hk bits in
    same→eq _ _ (row_of_table (λ j. set_row m k j) 8 j hj places)

abbrev low_row : ℕ → ℕ → Bool
low_row k m =
    if ltb m (2 ^ (k + 1))
    then is_clear m (k + 1)
      && (ltb (bit_or m (2 ^ (k + 1))) (2 ^ (k + 2)) && ltb (bit_or m (2 ^ (k + 1))) 256)
    else true

abbrev low_rows : ℕ → Bool
low_rows k = check_rows (λ m. low_row k m) 256

low_table : check_rows low_rows 7 ≡ true
unfolding check_rows
low_table = refl

low_fact : (m k : ℕ) → m < 256 → k < 7 → low_row k m ≡ true
low_fact m k hm hk =
    row_of_table (λ m. low_row k m) 256 m hm (row_of_table low_rows 7 k hk low_table)

-- The bits above those of `m` are clear.
pub is_clear_above : (m k : ℕ) → m < 256 → k < 7 → m < 2 ^ (k + 1) → is_clear m (k + 1) ≡ true
is_clear_above m k hm hk h = ground (arith, low_fact m k hm hk)

pub bit_or-lt :
    (m k : ℕ)
    → m < 256
    → k < 7
    → m < 2 ^ (k + 1)
    → (bit_or m (2 ^ (k + 1)) < 2 ^ (k + 2)) × (bit_or m (2 ^ (k + 1)) < 256)
bit_or-lt m k hm hk h = ground (arith, low_fact m k hm hk)
