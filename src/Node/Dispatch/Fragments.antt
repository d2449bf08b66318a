-- ===== src/Node/Dispatch/Fragments.antt =====
-- crates/node/src/game/host/dispatch.rs: the actions of a tick that are too long for one packet. A usize
-- has 64 bits.
pub mod Fill
pub mod Kept
use w3c_flo.Common.{
  ℕ, zero, suc, ◌+◌, ◌-◌, ◌%◌, ◌^◌, Option, none, some, List, [], ◌∷◌, ◌++◌, ltb, if◌then◌else◌,
  length,
}
use w3c_flo.W3gs.Action.{PlayerAction, byte_len, bytes_len}

abbrev pub dispatch_actions_mtu : ℕ
dispatch_actions_mtu = 1350 - 8

abbrev pub usize_sub : ℕ → ℕ → ℕ
usize_sub a b = (a + 2 ^ 64 - b) % 2 ^ 64

-- The actions that the inner loop leaves, their size, and the time slot that it has broadcast, if any.
pub record Pass : Type 0 where
  pub actions : List PlayerAction
  pub remaining_size : ℕ
  pub broadcast : Option (List PlayerAction)

-- The inner loop. An over-sized action is dropped, and the time slot that is being filled with it.
unfoldable pub fill : ℕ → List PlayerAction → ℕ → List PlayerAction → Pass
fill actions_size slot remaining_size [] = record {
  actions = [];
  remaining_size = remaining_size;
  broadcast = none;
}
fill actions_size slot remaining_size (a ∷ actions) =
    let rest =
      fill (actions_size + byte_len a) (slot ++ (a ∷ [])) (usize_sub remaining_size (byte_len a))
        actions in
    if ltb dispatch_actions_mtu (byte_len a)
    then record {
      actions = actions;
      remaining_size = usize_sub remaining_size (byte_len a);
      broadcast = none;
    }
    else if ltb dispatch_actions_mtu (actions_size + byte_len a)
    then record { actions = a ∷ actions; remaining_size = remaining_size; broadcast = some slot }
    else rest

abbrev pub sent_first :
    Option (List PlayerAction)
    → List (List PlayerAction) × List PlayerAction
    → List (List PlayerAction) × List PlayerAction
sent_first none r = r
sent_first (some slot) (slots, last) = (slot ∷ slots, last)

-- The outer loop, on fuel: the time slots broadcast on the way and the actions left for the last packet.
unfoldable pub fragment :
    ℕ → ℕ → List PlayerAction → Option (List (List PlayerAction) × List PlayerAction)
unfolding fill
fragment zero remaining_size actions =
    if ltb dispatch_actions_mtu remaining_size then none else some ([], actions)
fragment (suc fuel) remaining_size actions =
    let pass = fill 0 [] remaining_size actions in
    let rest = fragment fuel pass.remaining_size pass.actions in
    if ltb dispatch_actions_mtu remaining_size
    then elim rest [ none ↦ none | some r ↦ some (sent_first pass.broadcast r) ]
    else some ([], actions)

-- The time slots of a tick. Each turn of the outer loop takes an action off.
unfoldable pub fragments : List PlayerAction → Option (List (List PlayerAction) × List PlayerAction)
unfolding fragment
fragments actions = fragment (length actions) (bytes_len actions) actions
