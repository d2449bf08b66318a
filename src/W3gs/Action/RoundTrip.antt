-- ===== src/W3gs/Action/RoundTrip.antt =====
-- crates/w3gs/src/protocol/action.rs: decoding gives back what was encoded.
use w3c_flo.Common.{
  ℕ, zero, suc, ◌/◌, ◌%◌, ◌^◌, ◌≤◌, ◌<◌, ◌≡◌, refl, ap, ◌∙◌, List, [], ◌∷◌, ◌++◌, length, arith,
  Every, take-length-append, drop-length-append, length-append, ◌≢◌,
}
use w3c_flo.W3gs.Buffer.{ok, u16_le, get_u8, get_u16_le, get_u16_le-u16_le, get_u32_le-u32_le}
use w3c_flo.W3gs.Action.Total.{decode_time_slot_two}
use w3c_flo.W3gs.Action.{
  PlayerAction, TimeSlot, encode_action, decode_action, encode_actions, decode_actions, crc16,
  encode_time_slot, decode_slot_actions, decode_time_slot, new_outgoing, encode_outgoing,
  decode_outgoing, check_outgoing,
}

-- The length of an action's bytes fits its u16.
abbrev pub Fits : PlayerAction → Type 0
Fits a = length a.payload < 2 ^ 16

decode_action-encode_action :
    (a : PlayerAction) (rest : List ℕ)
    → Fits a
    → decode_action (encode_action a ++ rest) ≡ ok (a, rest)
unfolding decode_action encode_action get_u8 get_u16_le
decode_action-encode_action a rest h = ground (
  arith,
  length-append a.payload rest,
  take-length-append a.payload rest,
  drop-length-append a.payload rest,
)

length-encode_actions :
    (actions : List PlayerAction) → length actions ≤ length (encode_actions actions)
unfolding encode_actions encode_action
length-encode_actions [] = omega arith
length-encode_actions (a ∷ actions) = omega (
  arith,
  length-append (u16_le (length a.payload % 2 ^ 16) ++ a.payload) (encode_actions actions),
  length-encode_actions actions,
)

decode_actions-encode_actions :
    (fuel : ℕ) (actions : List PlayerAction)
    → length actions ≤ fuel
    → Every Fits actions
    → decode_actions fuel (encode_actions actions) ≡ ok actions
unfolding decode_actions encode_actions encode_action
decode_actions-encode_actions fuel [] l h = refl
decode_actions-encode_actions zero (a ∷ actions) l h = absurd (omega arith)
decode_actions-encode_actions (suc fuel) (a ∷ actions) l h = rw (
  decode_action-encode_action a (encode_actions actions) h.0,
  decode_actions-encode_actions fuel actions (omega arith) h.1,
)

module _ (crc32 : List ℕ → ℕ) where
  decode_slot_actions_lem :
      (time : ℕ) (buf : List ℕ) (actions : List PlayerAction)
      → decode_actions (length buf) buf ≡ ok actions
      → decode_slot_actions crc32 time (u16_le (crc16 crc32 buf) ++ buf)
        ≡ ok (record { time_increment_ms = time; actions = actions })
  unfolding decode_slot_actions get_u16_le
  decode_slot_actions_lem time buf actions h =
      ground (arith, h, get_u16_le-u16_le (crc16 crc32 buf) buf)

  -- A time slot whose increment and whose actions' lengths fit a u16 is read back from its encoding, for
  -- any checksum.
  pub decode_time_slot-encode_time_slot :
      (time : ℕ) (actions : List PlayerAction)
      → time < 2 ^ 16
      → Every Fits actions
      → let slot : TimeSlot = record { time_increment_ms = time; actions = actions } in
        decode_time_slot crc32 (encode_time_slot crc32 slot) ≡ ok slot
  unfolding decode_time_slot encode_time_slot get_u16_le decode_slot_actions
  decode_time_slot-encode_time_slot time [] l h = ground arith
  decode_time_slot-encode_time_slot time (a ∷ actions) l h =
      let body = encode_actions (a ∷ actions) in
      decode_time_slot_two crc32 (time % 256) (time / 256 % 256) (u16_le (crc16 crc32 body) ++ body)
      ∙ ap (λ t. decode_slot_actions crc32 t (u16_le (crc16 crc32 body) ++ body)) (omega arith)
      ∙ (decode_slot_actions_lem time body (a ∷ actions) (
          decode_actions-encode_actions (length body) (a ∷ actions)
            (length-encode_actions (a ∷ actions)) h))

  -- The bytes of a player's own action, unless there are none, are read back with their checksum.
  pub decode_outgoing-encode_outgoing :
      (payload : List ℕ)
      → crc32 payload < 2 ^ 32
      → payload ≢ []
      → decode_outgoing crc32 (encode_outgoing crc32 (new_outgoing crc32 payload))
        ≡ ok (new_outgoing crc32 payload)
  unfolding decode_outgoing encode_outgoing new_outgoing check_outgoing
  decode_outgoing-encode_outgoing [] l h = absurd (h refl)
  decode_outgoing-encode_outgoing (b ∷ payload) l h =
      rw (get_u32_le-u32_le (crc32 (b ∷ payload)) (b ∷ payload) l) (ground arith)
