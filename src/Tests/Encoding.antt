-- ===== src/Tests/Encoding.antt =====
-- The stat string at the input of the source's own test, and at two blocks.
use w3c_flo.Common.{ℕ, ◌≡◌, refl, List, [], ◌∷◌, length, arith}
use w3c_flo.StatString.{encode, decode, encoded_len}
use w3c_flo.StatString.RoundTrip.{decode-encode}
use w3c_flo.StatString.Length.{length-encode}

encode_nul : encode (0 ∷ []) ≡ 1 ∷ 1 ∷ []
unfolding encode
encode_nul = refl

encoded_len_one : encoded_len 1 ≡ 2
unfolding encoded_len
encoded_len_one = refl

abbrev settings_bytes : List ℕ
settings_bytes = 2 ∷ 72 ∷ 6 ∷ 64 ∷ 0 ∷ 116 ∷ 255 ∷ 0 ∷ 116 ∷ 77 ∷ []

decode-encode_example : decode (encode settings_bytes) ≡ settings_bytes
decode-encode_example = decode-encode settings_bytes (omega arith)

length-encode_example : length (encode settings_bytes) ≡ encoded_len 10
length-encode_example = length-encode settings_bytes
