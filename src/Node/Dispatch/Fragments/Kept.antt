-- ===== src/Node/Dispatch/Fragments/Kept.antt =====
-- crates/node/src/game/host/dispatch.rs: what becomes of the actions of a tick that are too long for one
-- packet.
use w3c_flo.Common.{
  ℕ, zero, suc, ◌+◌, ◌^◌, ◌≤◌, ◌<◌, ◌≡◌, refl, ◌∙◌, ap, Option, none, some, List, [], ◌∷◌, ◌++◌,
  length, arith, Every, lt→ltb, dec_lt,
}
use mathlib.Core.Option.{some-injective}
use w3c_flo.W3gs.Action.{PlayerAction, byte_len, bytes_len}
use w3c_flo.Node.Dispatch.Fragments.{
  dispatch_actions_mtu, usize_sub, Pass, fill, sent_first, fragment, fragments,
}
use w3c_flo.Node.Dispatch.Fragments.Fill.{
  FitsPacket, IsSmall, le→ltb, fill-Filled, fill_shorter, fill-Kept,
}

-- All time slots one after the other, with the last one.
abbrev pub kept : List (List PlayerAction) × List PlayerAction → List PlayerAction
kept ([], last) = last
kept (slot ∷ slots, last) = slot ++ kept (slots, last)

-- Each time slot goes into a packet.
abbrev pub AllFit : List (List PlayerAction) × List PlayerAction → Type 0
AllFit (slots, last) = Every FitsPacket slots × FitsPacket last

sent_first-AllFit :
    (o : Option (List PlayerAction)) (r : List (List PlayerAction) × List PlayerAction)
    → ((s : List PlayerAction) → o ≡ some s → FitsPacket s)
    → AllFit r
    → AllFit (sent_first o r)
sent_first-AllFit none r f h = h
sent_first-AllFit (some slot) (slots, last) f h = ((f slot refl, h.0), h.1)

-- One turn of the outer loop.
fragment_turn_to :
    (fuel remaining : ℕ) (actions : List PlayerAction) (pass : Pass)
    {r : List (List PlayerAction) × List PlayerAction}
    → dispatch_actions_mtu < remaining
    → fill 0 [] remaining actions ≡ pass
    → fragment fuel pass.remaining_size pass.actions ≡ some r
    → fragment (suc fuel) remaining actions ≡ some (sent_first pass.broadcast r)
unfolding fragment
fragment_turn_to fuel remaining actions pass {r = r} l p e =
    rw (lt→ltb _ _ l, p, e) (ap (λ (q : Pass). some (sent_first q.broadcast r)) p)

fragment_end :
    (fuel remaining : ℕ) (actions : List PlayerAction)
    → remaining ≤ dispatch_actions_mtu
    → fragment fuel remaining actions ≡ some ([], actions)
unfolding fragment
fragment_end zero remaining actions l = ground arith
fragment_end (suc fuel) remaining actions l = ground arith

sent_first-kept :
    (s : List PlayerAction) (o : Option (List PlayerAction))
    (r : List (List PlayerAction) × List PlayerAction)
    → o ≡ some s
    → kept (sent_first o r) ≡ s ++ kept r
sent_first-kept s none r e = cc e
sent_first-kept s (some t) (slots, last) e =
    ap (λ x. x ++ kept (slots, last)) (some-injective t s e)

Ends : ℕ → ℕ → List PlayerAction → Type 0
Ends fuel remaining actions =
    (r : List (List PlayerAction) × List PlayerAction) × (fragment fuel remaining actions ≡ some r)
    × AllFit r
    × (Every IsSmall actions → kept r ≡ actions)

fragment_short :
    (fuel remaining : ℕ) (actions : List PlayerAction)
    → remaining ≡ bytes_len actions
    → remaining ≤ dispatch_actions_mtu
    → Ends fuel remaining actions
unfolding Ends
fragment_short fuel remaining actions e l =
    (([], actions), fragment_end fuel remaining actions l, (tt, omega arith), λ s. refl)

fragment-Ends :
    (fuel remaining : ℕ) (actions : List PlayerAction)
    → remaining ≡ bytes_len actions
    → bytes_len actions < 2 ^ 64
    → length actions ≤ fuel
    → Ends fuel remaining actions
unfolding Ends
fragment-Ends fuel remaining [] e l f = fragment_short fuel remaining [] e (omega arith)
fragment-Ends zero remaining (a ∷ actions) e l f = absurd (omega arith)
fragment-Ends (suc fuel) remaining (a ∷ actions) e l f =
    elim (dec_lt dispatch_actions_mtu remaining) [
      | no short ↦ fragment_short (suc fuel) remaining (a ∷ actions) e (omega arith)
      | yes long ↦
          let pass = fill 0 [] remaining (a ∷ actions) in
          let filled = fill-Filled 0 [] remaining (a ∷ actions) refl (omega arith) e l in
          let (r, same, fit, all) =
            fragment-Ends fuel pass.remaining_size pass.actions filled.counted
              (omega (arith, filled.fewer, l))
              (omega (arith, f, fill_shorter remaining a actions e l)) in
          (
            sent_first pass.broadcast r,
            fragment_turn_to fuel remaining (a ∷ actions) pass long refl same,
            sent_first-AllFit pass.broadcast r filled.sent fit,
            λ small.
                let (s, sent, same', small') =
                  fill-Kept 0 [] remaining (a ∷ actions) (omega arith) (omega arith) small in
                sent_first-kept s pass.broadcast r sent ∙ ap (λ x. s ++ x) (all small') ∙ same',
          )
    ]

-- The loop over the actions of a tick ends, within as many turns as there are actions, and each time slot
-- that it broadcasts, the last one too, goes into a packet of 1342 bytes. The actions take less than
-- 2 ^ 64 bytes.
pub fragments-AllFit :
    (actions : List PlayerAction)
    → bytes_len actions < 2 ^ 64
    → (r : List (List PlayerAction) × List PlayerAction) × (fragments actions ≡ some r) × AllFit r
unfolding fragments Ends
fragments-AllFit actions l =
    let (r, e, fit, _) =
      fragment-Ends (length actions) (bytes_len actions) actions refl l (omega arith) in
    (r, e, fit)

-- When no action of a tick is longer than 1342 bytes, the time slots that are broadcast hold its actions,
-- each once and in their order. The actions take less than 2 ^ 64 bytes.
pub fragments-kept :
    (actions : List PlayerAction)
    → bytes_len actions < 2 ^ 64
    → Every (λ a. byte_len a ≤ dispatch_actions_mtu) actions
    → (r : List (List PlayerAction) × List PlayerAction) × (fragments actions ≡ some r)
      × (kept r ≡ actions)
unfolding fragments Ends
fragments-kept actions l small =
    let (r, e, _, all) =
      fragment-Ends (length actions) (bytes_len actions) actions refl l (omega arith) in
    (r, e, all small)

fill_lost :
    (remaining : ℕ) (a big : PlayerAction) (actions : List PlayerAction)
    → byte_len a ≤ dispatch_actions_mtu
    → dispatch_actions_mtu < byte_len big
    → fill 0 [] remaining (a ∷ big ∷ actions) ≡ record {
      actions = actions;
      remaining_size = usize_sub (usize_sub remaining (byte_len a)) (byte_len big);
      broadcast = none;
    }
unfolding fill
fill_lost remaining a big actions small large =
    rw
      (
        le→ltb dispatch_actions_mtu (byte_len a) small,
        le→ltb dispatch_actions_mtu (0 + byte_len a) (omega arith),
        lt→ltb _ _ large,
      )
      refl

-- An action that goes into a packet is lost when an over-sized one comes right after it: the time slot
-- that it stands in is never broadcast. Only the actions after both are. The actions take less than
-- 2 ^ 64 bytes, and those after the over-sized one at most 1342 each.
pub fragments_lost :
    (a big : PlayerAction) (actions : List PlayerAction)
    → byte_len a ≤ dispatch_actions_mtu
    → dispatch_actions_mtu < byte_len big
    → Every (λ b. byte_len b ≤ dispatch_actions_mtu) actions
    → bytes_len (a ∷ big ∷ actions) < 2 ^ 64
    → (r : List (List PlayerAction) × List PlayerAction) × (fragments (a ∷ big ∷ actions) ≡ some r)
      × (kept r ≡ actions)
unfolding fragments Ends
fragments_lost a big actions small large others l =
    let total = bytes_len (a ∷ big ∷ actions) in
    let (r, e, _, all) =
      fragment-Ends (suc (length actions)) (usize_sub (usize_sub total (byte_len a)) (byte_len big))
        actions (omega arith) (omega arith) (omega arith) in
    (
      r,
      fragment_turn_to (suc (length actions)) total (a ∷ big ∷ actions) _ (omega arith)
          (fill_lost total a big actions small large) e,
      all others,
    )
