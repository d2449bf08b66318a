-- ===== src/Node/Dispatch/Fragments/Fill.antt =====
-- crates/node/src/game/host/dispatch.rs: one pass over the actions of a tick, which fills one packet.
use w3c_flo.Common.{
  ℕ, ◌+◌, ◌^◌, ◌≤◌, ◌<◌, ◌≡◌, refl, ◌∙◌, some, List, [], ◌∷◌, ◌++◌, ltb, length, arith, Every,
  false, if_cases,
}
use mathlib.Core.List.{append_assoc}
use w3c_flo.W3gs.Action.{PlayerAction, byte_len, bytes_len}
use w3c_flo.Node.Dispatch.Fragments.{dispatch_actions_mtu, usize_sub, Pass, fill}

abbrev pub FitsPacket : List PlayerAction → Type 0
FitsPacket slot = bytes_len slot ≤ dispatch_actions_mtu

abbrev pub IsSmall : PlayerAction → Type 0
IsSmall a = byte_len a ≤ dispatch_actions_mtu

pub le→ltb : (a b : ℕ) → b ≤ a → ltb a b ≡ false
le→ltb a b h = ground arith

bytes_len-snoc :
    (slot : List PlayerAction) (a : PlayerAction)
    → bytes_len (slot ++ (a ∷ [])) ≡ bytes_len slot + byte_len a
bytes_len-snoc [] a = omega arith
bytes_len-snoc (b ∷ slot) a = omega (arith, bytes_len-snoc slot a)

-- What a pass leaves of the actions it has, if it has counted their bytes.
pub record Filled (actions : List PlayerAction) (pass : Pass) : Type 0 where
  pub counted : pass.remaining_size ≡ bytes_len pass.actions
  pub shorter : length pass.actions ≤ length actions
  pub fewer : bytes_len pass.actions ≤ bytes_len actions
  pub sent : (s : List PlayerAction) → pass.broadcast ≡ some s → FitsPacket s

pub fill-Filled :
    (size : ℕ) (slot : List PlayerAction) (remaining : ℕ) (actions : List PlayerAction)
    → size ≡ bytes_len slot
    → FitsPacket slot
    → remaining ≡ bytes_len actions
    → bytes_len actions < 2 ^ 64
    → Filled actions (fill size slot remaining actions)
unfolding fill
fill-Filled size slot remaining [] e f r l = record {
  counted = r;
  shorter = omega arith;
  fewer = omega arith;
  sent = λ s q. cc q;
}
fill-Filled size slot remaining (a ∷ actions) e f r l =
    if_cases (Filled (a ∷ actions)) (ltb dispatch_actions_mtu (byte_len a)) _ _
      (λ big. record {
        counted = omega arith;
        shorter = omega arith;
        fewer = omega arith;
        sent = λ s q. cc q;
      })
      (λ small.
        if_cases (Filled (a ∷ actions)) (ltb dispatch_actions_mtu (size + byte_len a)) _ _
          (λ full. record {
            counted = r;
            shorter = omega arith;
            fewer = omega arith;
            sent = λ s q. ground arith;
          })
          (λ fits.
            let rest =
              fill-Filled (size + byte_len a) (slot ++ (a ∷ [])) (usize_sub remaining (byte_len a))
                actions (omega (arith, bytes_len-snoc slot a))
                (ground (arith, bytes_len-snoc slot a, fits)) (omega arith) (omega arith) in
            record {
              counted = rest.counted;
              shorter = omega (arith, rest.shorter);
              fewer = omega (arith, rest.fewer);
              sent = rest.sent;
            }))

-- A pass that starts with an empty time slot takes an action off.
pub fill_shorter :
    (remaining : ℕ) (a : PlayerAction) (actions : List PlayerAction)
    → remaining ≡ bytes_len (a ∷ actions)
    → bytes_len (a ∷ actions) < 2 ^ 64
    → length (fill 0 [] remaining (a ∷ actions)).actions ≤ length actions
unfolding fill
fill_shorter remaining a actions r l =
    if_cases (λ (pass : Pass). length pass.actions ≤ length actions)
      (ltb dispatch_actions_mtu (byte_len a)) _ _ (λ big. omega arith)
      (λ small.
        if_cases (λ (pass : Pass). length pass.actions ≤ length actions)
          (ltb dispatch_actions_mtu (0 + byte_len a)) _ _ (λ full. absurd (ground (arith, small)))
          (λ fits.
            (fill-Filled (0 + byte_len a) (a ∷ []) (usize_sub remaining (byte_len a)) actions
              (omega arith) (ground (arith, fits)) (omega arith) (omega arith)).shorter))

-- With no over-sized action among those that are left, and more of them than go into the packet, a time
-- slot is broadcast, and nothing is lost.
abbrev pub Kept : List PlayerAction → List PlayerAction → Pass → Type 0
Kept slot actions pass =
    (s : List PlayerAction) × (pass.broadcast ≡ some s)
    × (s ++ pass.actions ≡ slot ++ actions)
    × Every IsSmall pass.actions

pub fill-Kept :
    (size : ℕ) (slot : List PlayerAction) (remaining : ℕ) (actions : List PlayerAction)
    → dispatch_actions_mtu < size + bytes_len actions
    → size ≤ dispatch_actions_mtu
    → Every IsSmall actions
    → Kept slot actions (fill size slot remaining actions)
unfolding fill
fill-Kept size slot remaining [] l e s = absurd (omega arith)
fill-Kept size slot remaining (a ∷ actions) l e s =
    if_cases (Kept slot (a ∷ actions)) (ltb dispatch_actions_mtu (byte_len a)) _ _
      (λ big. absurd (ground (arith, big, s.0)))
      (λ small.
        if_cases (Kept slot (a ∷ actions)) (ltb dispatch_actions_mtu (size + byte_len a)) _ _
          (λ full. (slot, refl, refl, s))
          (λ fits.
            let (t, sent, same, left) =
              fill-Kept (size + byte_len a) (slot ++ (a ∷ [])) (usize_sub remaining (byte_len a))
                actions (omega arith) (ground (arith, fits)) s.1 in
            (t, sent, same ∙ append_assoc slot (a ∷ []) actions, left)))
