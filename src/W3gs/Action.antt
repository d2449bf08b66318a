-- ===== src/W3gs/Action.antt =====
-- crates/w3gs/src/protocol/action.rs: the actions of the players, and the time slots that carry them.
-- `crc32` is that of the crate crc32fast. A payload is encoded to an empty buffer, as
-- `Packet::with_payload` does.
pub mod RoundTrip
pub mod Total
pub mod Chunks
use w3c_flo.Common.{
  ℕ, zero, suc, ◌+◌, ◌%◌, ◌^◌, Bool, true, false, List, [], ◌∷◌, ◌++◌, ◌==◌, ltb, if◌then◌else◌,
  length, take, drop,
}
use w3c_flo.W3gs.Buffer.{
  Error, incomplete, invalid_payload_length, invalid_checksum, Result, ok, err, panic, stuck, ◌>>=◌,
  u16_le, u32_le, get_u8, get_u16_le, get_u32_le,
}

pub record PlayerAction : Type 0 where
  pub player_id : ℕ
  pub payload : List ℕ

pub record TimeSlot : Type 0 where
  pub time_increment_ms : ℕ
  pub actions : List PlayerAction

pub record OutgoingAction : Type 0 where
  pub crc : ℕ
  pub payload : List ℕ

abbrev pub byte_len : PlayerAction → ℕ
byte_len a = 3 + length a.payload

-- `sum` of `byte_len`.
abbrev pub bytes_len : List PlayerAction → ℕ
bytes_len [] = 0
bytes_len (a ∷ actions) = byte_len a + bytes_len actions

unfoldable pub encode_action : PlayerAction → List ℕ
encode_action a = a.player_id ∷ (u16_le (length a.payload % 2 ^ 16) ++ a.payload)

unfoldable pub decode_action : List ℕ → Result (PlayerAction × List ℕ)
decode_action buf = if ltb (length buf) 3 then err incomplete else (do
  (player_id, buf1) ← get_u8 buf
  (data_len, buf2) ← get_u16_le buf1
  if ltb (length buf2) data_len
      then err incomplete
      else ok (record { player_id = player_id; payload = take data_len buf2 }, drop data_len buf2))

unfoldable pub encode_actions : List PlayerAction → List ℕ
unfolding encode_action
encode_actions [] = []
encode_actions (a ∷ actions) = encode_action a ++ encode_actions actions

-- `while buf.has_remaining()`. An action takes three bytes at least.
unfoldable pub decode_actions : ℕ → List ℕ → Result (List PlayerAction)
unfolding decode_action
decode_actions fuel [] = ok []
decode_actions zero (b ∷ buf) = stuck
decode_actions (suc fuel) (b ∷ buf) = do
  (a, rest) ← decode_action (b ∷ buf)
  actions ← decode_actions fuel rest
  ok (a ∷ actions)

module _ (crc32 : List ℕ → ℕ) where
  -- `& 0x0000FFFF` of a u32.
  abbrev pub crc16 : List ℕ → ℕ
  crc16 buf = crc32 buf % 2 ^ 16

  unfoldable pub encode_time_slot : TimeSlot → List ℕ
  unfolding encode_actions
  encode_time_slot slot = elim slot.actions [
    | [] ↦ u16_le slot.time_increment_ms
    | a ∷ actions ↦
        u16_le slot.time_increment_ms
        ++ (u16_le (crc16 (encode_actions (a ∷ actions))) ++ encode_actions (a ∷ actions))
  ]

  -- The bytes after the time increment.
  unfoldable pub decode_slot_actions : ℕ → List ℕ → Result TimeSlot
  unfolding decode_actions
  decode_slot_actions time [] = ok (record { time_increment_ms = time; actions = [] })
  decode_slot_actions time (b ∷ buf) = if ltb (length (b ∷ buf)) 2 then err incomplete else (do
    (crc, rest) ← get_u16_le (b ∷ buf)
    if crc == crc16 rest
        then (do
          actions ← decode_actions (length rest) rest
          ok (record { time_increment_ms = time; actions = actions }))
        else err invalid_checksum)

  unfoldable pub decode_time_slot : List ℕ → Result TimeSlot
  unfolding decode_slot_actions
  decode_time_slot buf =
      if ltb (length buf) 2
      then err incomplete
      else (do (time, rest) ← get_u16_le buf; decode_slot_actions time rest)

  -- `OutgoingAction::new`, and its encoding.
  unfoldable pub new_outgoing : List ℕ → OutgoingAction
  new_outgoing payload = record { crc = crc32 payload; payload = payload }

  unfoldable pub encode_outgoing : OutgoingAction → List ℕ
  encode_outgoing a = u32_le a.crc ++ a.payload

  unfoldable pub check_outgoing : ℕ → List ℕ → Result OutgoingAction
  check_outgoing checksum [] = err incomplete
  check_outgoing checksum (b ∷ payload) =
      if checksum == crc32 (b ∷ payload)
      then ok (record { crc = crc32 (b ∷ payload); payload = b ∷ payload })
      else err invalid_checksum

  unfoldable pub decode_outgoing : List ℕ → Result OutgoingAction
  unfolding check_outgoing
  decode_outgoing buf =
      if ltb (length buf) 4
      then err (invalid_payload_length (length buf))
      else (do (checksum, payload) ← get_u32_le buf; check_outgoing checksum payload)
