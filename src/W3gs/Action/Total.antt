-- ===== src/W3gs/Action/Total.antt =====
-- crates/w3gs/src/protocol/action.rs: decoding ends, without a panic, whatever the bytes are.
use w3c_flo.Common.{
  ℕ, zero, suc, ◌+◌, ◌*◌, ◌≤◌, ◌≡◌, refl, ◌⊎◌, inl, inr, List, [], ◌∷◌, ◌==◌, ltb, length, take,
  drop, arith, length-take, length-drop, Bool-cases,
}
use w3c_flo.W3gs.Buffer.{Error, incomplete, invalid_checksum, Result, ok, err, get_u8, get_u16_le}
use w3c_flo.W3gs.Action.{
  PlayerAction, byte_len, decode_action, decode_actions, crc16, decode_slot_actions,
  decode_time_slot,
}

-- A value or an error.
abbrev pub Returns {ℓ} : {A : Type ℓ} → Result A → Type ℓ
Returns {A} r = ((a : A) × (r ≡ ok a)) ⊎ ((e : Error) × (r ≡ err e))

-- An action that is read takes its bytes off, which are three at least.
abbrev Takes : List ℕ → Result (PlayerAction × List ℕ) → Type 0
Takes buf r =
    ((a : PlayerAction) × (rest : List ℕ) × (r ≡ ok (a, rest))
      × (byte_len a + length rest ≡ length buf))
    ⊎ (r ≡ err incomplete)

decode_action-Takes : (buf : List ℕ) → Takes buf (decode_action buf)
unfolding decode_action get_u8 get_u16_le
decode_action-Takes [] = inr refl
decode_action-Takes (a ∷ []) = inr refl
decode_action-Takes (a ∷ b ∷ []) = inr refl
decode_action-Takes (a ∷ b ∷ c ∷ buf) = elim (Bool-cases (ltb (length buf) (b + 256 * c))) [
  | inl short ↦ inr (ground (arith, short))
  | inr enough ↦ inl (
    record { player_id = a; payload = take (b + 256 * c) buf },
    drop (b + 256 * c) buf,
    ground (arith, enough),
    ground (arith, enough, length-take (b + 256 * c) buf, length-drop (b + 256 * c) buf),
  )
]

decode_actions-Returns :
    (fuel : ℕ) (buf : List ℕ) → length buf ≤ fuel → Returns (decode_actions fuel buf)
unfolding decode_actions
decode_actions-Returns fuel [] l = inl ([], refl)
decode_actions-Returns zero (b ∷ buf) l = absurd (omega arith)
decode_actions-Returns (suc fuel) (b ∷ buf) l = elim (decode_action-Takes (b ∷ buf)) [
  | inr e ↦ inr (incomplete, rw e refl)
  | inl (a, rest, e, n) ↦ elim (decode_actions-Returns fuel rest (omega arith)) [
    | inl (actions, f) ↦ inl (a ∷ actions, rw (e, f) refl)
    | inr (x, f) ↦ inr (x, rw (e, f) refl)
  ]
]

module _ (crc32 : List ℕ → ℕ) where
  decode_slot_actions-Returns :
      (time : ℕ) (buf : List ℕ) → Returns (decode_slot_actions crc32 time buf)
  unfolding decode_slot_actions get_u16_le
  decode_slot_actions-Returns time [] = inl (_, refl)
  decode_slot_actions-Returns time (a ∷ []) = inr (incomplete, refl)
  decode_slot_actions-Returns time (a ∷ b ∷ buf) =
      elim (Bool-cases (a + 256 * b == crc16 crc32 buf)) [
        | inl same ↦ elim (decode_actions-Returns (length buf) buf (omega arith)) [
          | inl (actions, f) ↦
              inl (record { time_increment_ms = time; actions = actions }, ground (arith, same, f))
          | inr (x, f) ↦ inr (x, ground (arith, same, f))
        ]
        | inr differ ↦ inr (invalid_checksum, ground (arith, differ))
      ]

  pub decode_time_slot_two :
      (a b : ℕ) (buf : List ℕ)
      → decode_time_slot crc32 (a ∷ b ∷ buf) ≡ decode_slot_actions crc32 (a + 256 * b) buf
  unfolding decode_time_slot get_u16_le
  decode_time_slot_two a b buf = ground arith

  -- Reading a time slot from any bytes ends with a value or an error: the loop over the actions takes as
  -- many rounds as there are bytes, at most, and no read passes the end.
  pub decode_time_slot-Returns : (buf : List ℕ) → Returns (decode_time_slot crc32 buf)
  unfolding decode_time_slot get_u16_le
  decode_time_slot-Returns [] = inr (incomplete, refl)
  decode_time_slot-Returns (a ∷ []) = inr (incomplete, refl)
  decode_time_slot-Returns (a ∷ b ∷ buf) =
      rw (decode_time_slot_two a b buf) (decode_slot_actions-Returns (a + 256 * b) buf)
