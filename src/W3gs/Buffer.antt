-- ===== src/W3gs/Buffer.antt =====
-- Reading a `Bytes` of the crate bytes: the bytes that are left, from the front. crates/w3gs/src/error.rs.
use w3c_flo.Common.{ℕ, ◌+◌, ◌*◌, ◌/◌, ◌%◌, ◌<◌, ◌≡◌, ◌^◌, List, [], ◌∷◌, ◌++◌, arith}

pub data Error : Type 0 where
  incomplete : Error
  invalid_payload_length : ℕ → Error
  invalid_checksum : Error
  extra_payload_bytes : ℕ → Error

-- `panic` is a read past the end; `stuck`, which the code has not, a loop that ran out of fuel.
pub data Result {ℓ} (A : Type ℓ) : Type ℓ where
  ok : A → Result A
  err : Error → Result A
  panic : Result A
  stuck : Result A

infixl 5 ◌>>=◌
abbrev pub ◌>>=◌ {ℓ κ} : {A : Type ℓ} {B : Type κ} → Result A → (A → Result B) → Result B
ok a >>= f = f a
err e >>= f = err e
panic >>= f = panic
stuck >>= f = stuck

-- `put_u16_le` and `put_u32_le` append these.
abbrev pub u16_le : ℕ → List ℕ
u16_le n = n % 256 ∷ n / 256 % 256 ∷ []

abbrev pub u32_le : ℕ → List ℕ
u32_le n = n % 256 ∷ n / 256 % 256 ∷ n / 65536 % 256 ∷ n / 16777216 % 256 ∷ []

unfoldable pub get_u8 : List ℕ → Result (ℕ × List ℕ)
get_u8 [] = panic
get_u8 (b ∷ buf) = ok (b, buf)

unfoldable pub get_u16_le : List ℕ → Result (ℕ × List ℕ)
get_u16_le [] = panic
get_u16_le (a ∷ []) = panic
get_u16_le (a ∷ b ∷ buf) = ok (a + 256 * b, buf)

unfoldable pub get_u32_le : List ℕ → Result (ℕ × List ℕ)
get_u32_le (a ∷ b ∷ c ∷ d ∷ buf) = ok (a + 256 * b + 65536 * c + 16777216 * d, buf)
get_u32_le _ = panic

pub get_u16_le-u16_le :
    (n : ℕ) (buf : List ℕ) → n < 2 ^ 16 → get_u16_le (u16_le n ++ buf) ≡ ok (n, buf)
unfolding get_u16_le
get_u16_le-u16_le n buf h = ground arith

pub get_u32_le-u32_le :
    (n : ℕ) (buf : List ℕ) → n < 2 ^ 32 → get_u32_le (u32_le n ++ buf) ≡ ok (n, buf)
unfolding get_u32_le
get_u32_le-u32_le n buf h = ground arith
