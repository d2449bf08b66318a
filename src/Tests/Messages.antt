-- ===== src/Tests/Messages.antt =====
-- Time slots that are encoded, decoded and sent in parts.
use w3c_flo.Common.{ℕ, ◌+◌, ◌%◌, ◌^◌, ◌≡◌, refl, List, [], ◌∷◌, arith, done, replicate}
use w3c_flo.W3gs.Buffer.{ok}
use w3c_flo.W3gs.Action.{
  PlayerAction, TimeSlot, encode_time_slot, decode_time_slot, new_outgoing, encode_outgoing,
}
use w3c_flo.W3gs.Action.RoundTrip.{decode_time_slot-encode_time_slot}
use w3c_flo.W3gs.Action.Total.{Returns, decode_time_slot-Returns}
use w3c_flo.W3gs.Action.Chunks.{split_chunks, chunk_loop, chunk_step, chunk_end}
use w3c_flo.W3gs.Action.Chunks.Parts.{IsSplit, split_chunks-IsSplit}

-- A checksum for the tests.
abbrev sum32 : List ℕ → ℕ
sum32 [] = 1
sum32 (b ∷ buf) = (b + 31 + sum32 buf) % 2 ^ 32

abbrev two_actions : List PlayerAction
two_actions =
    record { player_id = 1; payload = 16 ∷ 255 ∷ [] } ∷ record { player_id = 2; payload = [] } ∷ []

abbrev two_slot : TimeSlot
two_slot = record { time_increment_ms = 300; actions = two_actions }

decode_time_slot-encode_time_slot_example :
    decode_time_slot sum32 (encode_time_slot sum32 two_slot) ≡ ok two_slot
decode_time_slot-encode_time_slot_example =
    decode_time_slot-encode_time_slot sum32 300 two_actions (omega arith)
      (omega arith, (omega arith, tt))

outgoing_run : encode_outgoing sum32 (new_outgoing sum32 (7 ∷ 8 ∷ [])) ≡ 78 ∷ 0 ∷ 0 ∷ 0 ∷ 7 ∷ 8 ∷ []
unfolding encode_outgoing new_outgoing
outgoing_run = refl

-- Bytes that end in the middle of an action.
decode_time_slot-Returns_example : Returns (decode_time_slot sum32 (44 ∷ 1 ∷ 47 ∷ 0 ∷ 1 ∷ 9 ∷ []))
decode_time_slot-Returns_example = decode_time_slot-Returns sum32 (44 ∷ 1 ∷ 47 ∷ 0 ∷ 1 ∷ 9 ∷ [])

-- Two actions of 800 bytes do not go into one part.
abbrev big_action : ℕ → PlayerAction
big_action player_id = record { player_id = player_id; payload = replicate 797 0 }

abbrev big_slot : TimeSlot
big_slot = record { time_increment_ms = 30; actions = big_action 1 ∷ big_action 2 ∷ [] }

split_chunks-IsSplit_example :
    (parts : List TimeSlot) × (split_chunks big_slot ≡ done parts) × IsSplit big_slot parts
split_chunks-IsSplit_example = split_chunks-IsSplit big_slot (omega arith, (omega arith, tt))

big_slot_run :
    split_chunks big_slot
    ≡ done (
        record { time_increment_ms = 0; actions = big_action 1 ∷ [] }
        ∷ record { time_increment_ms = 30; actions = big_action 2 ∷ [] }
        ∷ [])
unfolding split_chunks chunk_loop chunk_step chunk_end
big_slot_run = refl
