-- ===== src/StatString.antt =====
-- crates/util/src/stat_string.rs: the encoding of byte strings without zero bytes that Warcraft III
-- uses for game settings. A byte is a number below 256.
pub mod Bits
pub mod Blocks
pub mod Length
pub mod RoundTrip
use w3c_flo.Common.{
  ℕ, zero, suc, ◌+◌, ◌-◌, ◌*◌, ◌/◌, ◌%◌, ◌^◌, Bool, true, false, ◌||◌, List, [], ◌∷◌, ◌++◌, ◌==◌,
  if◌then◌else◌, bit_and, bit_or, length, take, drop,
}

-- `Vec::insert`.
unfoldable pub insert_at : List ℕ → ℕ → ℕ → List ℕ
insert_at xs pos x = take pos xs ++ (x ∷ drop pos xs)

-- What the loop of `encode` carries: the control byte in the making, and the output.
pub record Encoder : Type 0 where
  pub mask : ℕ
  pub out : List ℕ

-- The byte that is pushed.
unfoldable pub encode_byte : ℕ → ℕ
encode_byte byte = if byte % 2 == 0 then (byte + 1) % 2 ^ 8 else byte

-- The bit of an odd byte at place `k` of its block is set.
unfoldable pub mark : ℕ → ℕ → ℕ → ℕ
mark k byte mask = if byte % 2 == 0 then mask else bit_or mask (2 ^ (k + 1))

-- One turn of the loop, on the byte at index `i` of `n`.
unfoldable pub encode_step : ℕ → ℕ → ℕ → Encoder → Encoder
encode_step n i byte e =
    let out = e.out ++ (encode_byte byte ∷ []) in
    let mask = mark (i % 7) byte e.mask in
    if i % 7 == 6 || i == n - 1
    then record { mask = 1; out = insert_at out (length out - 1 - i % 7) mask }
    else record { mask = mask; out = out }

unfoldable pub encode_from : ℕ → ℕ → Encoder → List ℕ → List ℕ
encode_from n i e [] = e.out
encode_from n i e (byte ∷ src) = encode_from n (suc i) (encode_step n i byte e) src

unfoldable pub encode : List ℕ → List ℕ
unfolding encode_from encode_step encode_byte mark insert_at
encode src = encode_from (length src) 0 (record { mask = 1; out = [] }) src

-- A byte whose bit is clear was incremented.
unfoldable pub decode_byte : ℕ → ℕ → ℕ → ℕ
decode_byte mask j byte = if bit_and mask (2 ^ j) == 0 then (byte + 255) % 2 ^ 8 else byte

unfoldable pub decode_from : ℕ → ℕ → List ℕ → List ℕ
decode_from i mask [] = []
decode_from i mask (byte ∷ src) =
    let rest = decode_from (suc i) (if i % 8 == 0 then byte else mask) src in
    if i % 8 == 0 then rest else decode_byte mask (i % 8) byte ∷ rest

unfoldable pub decode : List ℕ → List ℕ
unfolding decode_from decode_byte
decode src = decode_from 0 0 src

unfoldable pub encoded_len : ℕ → ℕ
encoded_len data_len =
    if data_len % 7 == 0 then data_len / 7 * 8 else data_len / 7 * 8 + (data_len % 7 + 1)
