-- ===== src/W3gs/Action/Chunks/Parts.antt =====
-- crates/w3gs/src/protocol/action.rs: the parts of a time slot hold its actions, in order.
use mathlib.Core.List.{append_assoc, append-nil}
use w3c_flo.Common.{
  ℕ, ◌+◌, ◌*◌, ◌≤◌, ◌<◌, ◌≡◌, refl, sym, ap, ◌∙◌, inl, inr, List, [], ◌∷◌, ◌++◌, ltb, done, arith,
  Every, Every-append, Every-map, Bool-cases, if_cases,
}
use w3c_flo.W3gs.Action.{PlayerAction, TimeSlot, byte_len, bytes_len}
use w3c_flo.W3gs.Action.Chunks.{
  Chunking, max_action_data_len, silent, chunk_step, chunk_loop, chunk_end, split_chunks,
}

abbrev pub all_actions : List TimeSlot → List PlayerAction
all_actions [] = []
all_actions (slot ∷ slots) = slot.actions ++ all_actions slots

-- Only the last part has the time increment.
abbrev pub IsTimed : ℕ → List TimeSlot → Type 0
IsTimed time [] = ⊥
IsTimed time (slot ∷ []) = slot.time_increment_ms ≡ time
IsTimed time (slot ∷ slot' ∷ slots) = (slot.time_increment_ms ≡ 0) × IsTimed time (slot' ∷ slots)

all_actions-append :
    (xs ys : List TimeSlot) → all_actions (xs ++ ys) ≡ all_actions xs ++ all_actions ys
all_actions-append [] ys = refl
all_actions-append (slot ∷ xs) ys = simp (all_actions-append xs ys, append_assoc)

IsTimed-snoc :
    (time : ℕ) (slots : List TimeSlot) (slot : TimeSlot)
    → Every (λ s. s.time_increment_ms ≡ 0) slots
    → slot.time_increment_ms ≡ time
    → IsTimed time (slots ++ (slot ∷ []))
IsTimed-snoc time [] slot h e = e
IsTimed-snoc time (s ∷ []) slot h e = (h.0, e)
IsTimed-snoc time (s ∷ s' ∷ slots) slot h e = (h.0, IsTimed-snoc time (s' ∷ slots) slot h.1 e)

bytes_len-snoc :
    (actions : List PlayerAction) (a : PlayerAction)
    → bytes_len (actions ++ (a ∷ [])) ≡ bytes_len actions + byte_len a
bytes_len-snoc [] a = omega arith
bytes_len-snoc (b ∷ actions) a = omega (arith, bytes_len-snoc actions a)

-- The actions handled so far, and those of the part that is open.
abbrev so_far : Chunking → List PlayerAction
so_far s = all_actions s.payloads ++ s.actions

-- A closed part, and the open one, are at most as long as two actions data may be.
abbrev IsShort : TimeSlot → Type 0
IsShort slot = (slot.time_increment_ms ≡ 0) × (bytes_len slot.actions ≤ 2 * max_action_data_len)

record Bounded (s : Chunking) : Type 0 where
  parts : Every IsShort s.payloads
  opened : bytes_len s.actions ≤ s.data_len + max_action_data_len
  within : s.data_len ≤ max_action_data_len

chunk_step-so_far :
    (a : PlayerAction) (s : Chunking) → so_far (chunk_step a s) ≡ so_far s ++ (a ∷ [])
unfolding chunk_step
chunk_step-so_far a s =
    if_cases (λ s'. so_far s' ≡ so_far s ++ (a ∷ []))
      (ltb max_action_data_len (s.data_len + byte_len a)) _ _
      (λ _. simp (all_actions-append s.payloads (silent s.actions ∷ []), append-nil))
      (λ _. simp (append_assoc))

chunk_step-Bounded :
    (a : PlayerAction) (s : Chunking)
    → byte_len a ≤ max_action_data_len
    → Bounded s
    → Bounded (chunk_step a s)
unfolding chunk_step
chunk_step-Bounded a s l b = elim (Bool-cases (ltb max_action_data_len (s.data_len + byte_len a))) [
  | inl full ↦ rw full (record {
    parts =
        Every-append IsShort s.payloads (silent s.actions ∷ []) b.parts
          ((refl, omega (arith, b.opened, b.within)), tt);
    opened = omega arith;
    within = omega arith;
  })
  | inr room ↦ rw room (record {
    parts = b.parts;
    opened = omega (arith, bytes_len-snoc s.actions a, b.opened);
    within = ground (arith, room);
  })
]

chunk_loop-so_far :
    (todo : List PlayerAction) (s : Chunking) → so_far (chunk_loop todo s) ≡ so_far s ++ todo
unfolding chunk_loop
chunk_loop-so_far [] s = simp append-nil
chunk_loop-so_far (a ∷ todo) s =
    chunk_loop-so_far todo (chunk_step a s) ∙ simp (chunk_step-so_far a s, append_assoc)

chunk_loop-Bounded :
    (todo : List PlayerAction) (s : Chunking)
    → Every (λ a. byte_len a ≤ max_action_data_len) todo
    → Bounded s
    → Bounded (chunk_loop todo s)
unfolding chunk_loop
chunk_loop-Bounded [] s h b = b
chunk_loop-Bounded (a ∷ todo) s h b =
    chunk_loop-Bounded todo (chunk_step a s) h.1 (chunk_step-Bounded a s h.0 b)

abbrev Opens : Chunking → Type 0
Opens s = (a : PlayerAction) × (actions : List PlayerAction) × (s.actions ≡ a ∷ actions)

snoc-Opens :
    (xs : List PlayerAction) (a : PlayerAction)
    → (b : PlayerAction) × (actions : List PlayerAction) × (xs ++ (a ∷ []) ≡ b ∷ actions)
snoc-Opens [] a = (a, [], refl)
snoc-Opens (x ∷ xs) a = (x, xs ++ (a ∷ []), refl)

chunk_step-Opens : (a : PlayerAction) (s : Chunking) → Opens (chunk_step a s)
unfolding chunk_step
chunk_step-Opens a s =
    if_cases Opens (ltb max_action_data_len (s.data_len + byte_len a)) _ _ (λ _. (a, [], refl))
      (λ _. snoc-Opens s.actions a)

chunk_loop-Opens : (todo : List PlayerAction) (s : Chunking) → Opens s → Opens (chunk_loop todo s)
unfolding chunk_loop
chunk_loop-Opens [] s o = o
chunk_loop-Opens (a ∷ todo) s o = chunk_loop-Opens todo (chunk_step a s) (chunk_step-Opens a s)

-- What is sent for a time slot.
pub record IsSplit (slot : TimeSlot) (parts : List TimeSlot) : Type 0 where
  pub same : all_actions parts ≡ slot.actions
  pub timed : IsTimed slot.time_increment_ms parts
  pub short : Every (λ part. bytes_len part.actions ≤ 2 * max_action_data_len) parts

chunk_end-IsSplit :
    (slot : TimeSlot) (s : Chunking)
    → so_far s ≡ slot.actions
    → Bounded s
    → Opens s
    → (parts : List TimeSlot) × (chunk_end slot.time_increment_ms s.payloads s.actions ≡ done parts)
      × IsSplit slot parts
unfolding chunk_end
chunk_end-IsSplit slot s e b (a, actions, o) =
    let last : TimeSlot = record {
      time_increment_ms = slot.time_increment_ms;
      actions = a ∷ actions;
    } in
    (
      s.payloads ++ (last ∷ []),
      ap (chunk_end slot.time_increment_ms s.payloads) o,
      record {
        same =
            all_actions-append s.payloads (last ∷ [])
            ∙ ap (λ xs. all_actions s.payloads ++ xs) (append-nil (a ∷ actions) ∙ sym o)
            ∙ e;
        timed =
            IsTimed-snoc slot.time_increment_ms s.payloads last
              (Every-map (λ x h. h.0) s.payloads b.parts) refl;
        short =
            Every-append _ s.payloads (last ∷ []) (Every-map (λ x h. h.1) s.payloads b.parts)
              (omega (arith, ap bytes_len o, b.opened, b.within), tt);
      },
    )

-- The parts of a time slot hold its actions, all of them and in order; the time increment is the last
-- part's, and 0 in the others; no part is longer than 2904 bytes. This holds for any actions of 1452
-- bytes each at most, and the panic for a single action that is too large is never reached.
pub split_chunks-IsSplit :
    (slot : TimeSlot)
    → Every (λ a. byte_len a ≤ max_action_data_len) slot.actions
    → (parts : List TimeSlot) × (split_chunks slot ≡ done parts) × IsSplit slot parts
unfolding split_chunks chunk_loop
split_chunks-IsSplit slot h = elim (Bool-cases (ltb (bytes_len slot.actions) max_action_data_len)) [
  | inl fits ↦ (
    slot ∷ [],
    rw fits refl,
    record { same = append-nil slot.actions; timed = refl; short = (ground (arith, fits), tt) },
  )
  | inr long ↦
      let (parts, e, split) =
        chunk_end-IsSplit slot (chunk_loop slot.actions start)
          (chunk_loop-so_far slot.actions start)
          (chunk_loop-Bounded slot.actions start h
            (record { parts = tt; opened = omega arith; within = omega arith }))
          (opened slot.actions (ground (arith, long))) in
      (parts, rw long e, split)
]
  where
    start : Chunking
    start = record { payloads = []; data_len = 0; actions = [] }

    opened : (todo : List PlayerAction) → 0 < bytes_len todo → Opens (chunk_loop todo start)
    opened [] l = absurd (omega arith)
    opened (a ∷ todo) l = chunk_loop-Opens todo (chunk_step a start) (chunk_step-Opens a start)
