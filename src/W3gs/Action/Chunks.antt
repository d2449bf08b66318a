-- ===== src/W3gs/Action/Chunks.antt =====
-- crates/w3gs/src/protocol/action.rs: a time slot whose actions are too long is sent in parts. The iterator
-- over the parts is their list.
pub mod Parts
use w3c_flo.Common.{ℕ, ◌+◌, List, [], ◌∷◌, ◌++◌, ltb, if◌then◌else◌, Outcome, done, panic}
use w3c_flo.W3gs.Action.{PlayerAction, TimeSlot, byte_len, bytes_len}

abbrev pub max_action_data_len : ℕ
max_action_data_len = 1452

pub record Chunking : Type 0 where
  pub payloads : List TimeSlot
  pub data_len : ℕ
  pub actions : List PlayerAction

abbrev pub silent : List PlayerAction → TimeSlot
silent actions = record { time_increment_ms = 0; actions = actions }

-- One turn of the loop. The length starts again at 0, though the new part has an action already.
unfoldable pub chunk_step : PlayerAction → Chunking → Chunking
chunk_step a s =
    if ltb max_action_data_len (s.data_len + byte_len a)
    then record { payloads = s.payloads ++ (silent s.actions ∷ []); data_len = 0; actions = a ∷ [] }
    else record s { data_len = s.data_len + byte_len a; actions = s.actions ++ (a ∷ []) }

unfoldable pub chunk_loop : List PlayerAction → Chunking → Chunking
unfolding chunk_step
chunk_loop [] s = s
chunk_loop (a ∷ actions) s = chunk_loop actions (chunk_step a s)

-- `last_mut().expect(...).time_increment_ms = time`.
unfoldable pub set_last_time : ℕ → List TimeSlot → Outcome (List TimeSlot)
set_last_time time [] = panic
set_last_time time (slot ∷ []) = done (record slot { time_increment_ms = time } ∷ [])
set_last_time time (slot ∷ slot' ∷ slots) = elim (set_last_time time (slot' ∷ slots)) [
  | done rest ↦ done (slot ∷ rest)
  | panic ↦ panic
]

unfoldable pub chunk_end : ℕ → List TimeSlot → List PlayerAction → Outcome (List TimeSlot)
unfolding set_last_time
chunk_end time payloads [] = set_last_time time payloads
chunk_end time payloads (a ∷ actions) =
    done (payloads ++ (record { time_increment_ms = time; actions = a ∷ actions } ∷ []))

unfoldable pub split_chunks : TimeSlot → Outcome (List TimeSlot)
unfolding chunk_loop chunk_end
split_chunks slot =
    let s = chunk_loop slot.actions (record { payloads = []; data_len = 0; actions = [] }) in
    if ltb (bytes_len slot.actions) max_action_data_len
    then done (slot ∷ [])
    else chunk_end slot.time_increment_ms s.payloads s.actions
