-- ===== src/Node/Dispatch/Shared/Queues.antt =====
-- crates/node/src/game/host/dispatch.rs: the actions that the players' queues of packets hold.
use w3c_flo.Common.{
  ℕ, ◌≡◌, refl, sym, ◌∙◌, ap, subst, some, List, [], ◌∷◌, ◌++◌, inl, inr, arith, Option-cases,
  Bool-cases, ◌==◌,
}
use mathlib.Core.List.{append_assoc, append-nil}
use w3c_flo.Common.Maps.{SortedMap, get, insert, remove, get-insert_cases, get-remove_cases}
use w3c_flo.W3gs.Action.{PlayerAction}
use w3c_flo.Net.AckQueue.{W3gsMetadata, gen_next_send_sid, push_send, take_ack_received}
use w3c_flo.Node.Player.{TrySend, close_stream, enqueue_w3gs, send_w3gs}
use w3c_flo.Node.Dispatch.Packets.{
  Packet, PlayerInfo, W3gsFrame, PacketTypeId, packet_actions, packet_type_id,
}
use w3c_flo.Node.Dispatch.Shared.{Run, finished, panicked, stuck, ◌>>=◌}

-- The actions in the packets that wait for an acknowledgement, in order.
abbrev pub pending_actions : List (W3gsMetadata PacketTypeId × Packet) → List PlayerAction
pending_actions [] = []
pending_actions ((meta, packet) ∷ q) = packet_actions packet ++ pending_actions q

-- The actions that a player's queue holds.
abbrev pub queued : PlayerInfo → List PlayerAction
queued info = pending_actions info.w3gs_ack_q.tx_pending_ack_q

pending_actions-append :
    (xs ys : List (W3gsMetadata PacketTypeId × Packet))
    → pending_actions (xs ++ ys) ≡ pending_actions xs ++ pending_actions ys
pending_actions-append [] ys = refl
pending_actions-append ((meta, packet) ∷ xs) ys =
    ap (λ l. packet_actions packet ++ l) (pending_actions-append xs ys)
    ∙ sym (append_assoc (packet_actions packet) (pending_actions xs) (pending_actions ys))

-- Each player that is still on the map was on it before, and the actions have joined its queue.
abbrev pub Queued : List PlayerAction → SortedMap PlayerInfo → SortedMap PlayerInfo → Type 0
Queued actions m m' =
    (k : ℕ) (info' : PlayerInfo)
    → get k m' ≡ some info'
    → (info : PlayerInfo) × (get k m ≡ some info) × (queued info' ≡ queued info ++ actions)

pub Queued-refl : (m : SortedMap PlayerInfo) → Queued [] m m
Queued-refl m k info e = (info, e, sym (append-nil (queued info)))

pub Queued-trans :
    (xs ys : List PlayerAction) (m m' m'' : SortedMap PlayerInfo)
    → Queued xs m m'
    → Queued ys m' m''
    → Queued (xs ++ ys) m m''
Queued-trans xs ys m m' m'' q r k info'' e =
    let (info', e', a) = r k info'' e in
    let (info, e'', b) = q k info' e' in
    (info, e'', a ∙ ap (λ l. l ++ ys) b ∙ append_assoc (queued info) xs ys)

pub Queued-insert :
    (k : ℕ) (info info' : PlayerInfo) (m : SortedMap PlayerInfo)
    → get k m ≡ some info
    → queued info' ≡ queued info
    → Queued [] m (insert k info' m)
Queued-insert k info info' m e h j found f = elim (get-insert_cases k j info' m f) [
  | inl (same, stored) ↦ (
    info,
    subst (λ x. get x m ≡ some info) same e,
    ap queued (sym stored) ∙ h ∙ sym (append-nil (queued info)),
  )
  | inr (ne, old) ↦ (found, old, sym (append-nil (queued found)))
]

pub Queued-remove : (k : ℕ) (m : SortedMap PlayerInfo) → Queued [] m (remove k m)
Queued-remove k m j info e =
    let (ne, old) = get-remove_cases k j m e in (info, old, sym (append-nil (queued info)))

-- A change that goes over all entries.
pub Queued-cons :
    (actions : List PlayerAction) (j : ℕ) (info info' : PlayerInfo) (m m' : SortedMap PlayerInfo)
    → queued info' ≡ queued info ++ actions
    → Queued actions m m'
    → Queued actions ((j, info) ∷ m) ((j, info') ∷ m')
unfolding get
Queued-cons actions j info info' m m' h q k found e = elim (Bool-cases (j == k)) [
  | inl here ↦
      let stored : info' ≡ found = ground (arith, here, e) in
      (info, rw here refl, ap queued (sym stored) ∙ h)
  | inr there ↦ let (old, f, g) = q k found (ground (arith, there, e)) in (old, rw there f, g)
]

pub Queued-empty : (actions : List PlayerAction) → Queued actions [] []
unfolding get
Queued-empty actions k info e = cc

pub unchanged :
    (info info' : PlayerInfo) → queued info' ≡ queued info → queued info' ≡ queued info ++ []
unchanged info info' h = h ∙ sym (append-nil (queued info))

module _ (try_send : ℕ → W3gsFrame → TrySend) where
  pub send_w3gs-queued :
      (packet : Packet) (info : PlayerInfo)
      → queued (send_w3gs try_send (packet_type_id packet) packet info).1
        ≡ queued info ++ packet_actions packet
  unfolding send_w3gs enqueue_w3gs gen_next_send_sid take_ack_received push_send
  send_w3gs-queued packet info =
      pending_actions-append info.w3gs_ack_q.tx_pending_ack_q _
      ∙ ap (λ l. queued info ++ l) (append-nil (packet_actions packet))

pub enqueue_w3gs-queued :
    (packet : Packet) (info : PlayerInfo)
    → queued (enqueue_w3gs (packet_type_id packet) packet info).1
      ≡ queued info ++ packet_actions packet
unfolding enqueue_w3gs gen_next_send_sid take_ack_received push_send
enqueue_w3gs-queued packet info =
    pending_actions-append info.w3gs_ack_q.tx_pending_ack_q _
    ∙ ap (λ l. queued info ++ l) (append-nil (packet_actions packet))

pub close_stream-queued :
    (now : ℕ) (info : PlayerInfo) → queued (close_stream now info).1 ≡ queued info
unfolding close_stream
close_stream-queued now info = elim (Option-cases info.tx) [
  | inl e ↦ rw (close_stream, e) refl
  | inr (stream, e) ↦ rw (close_stream, e) refl
]

-- A result that was reached went through its parts.
pub run_parts {ℓ κ} :
    {A : Type ℓ} {B : Type κ} (r : Run A) (f : A → Run B) {b : B}
    → (r >>= f) ≡ finished b
    → (a : A) × (r ≡ finished a) × (f a ≡ finished b)
run_parts (finished a) f e = (a, refl, e)
run_parts panicked f e = cc
run_parts stuck f e = cc

pub finished-eq {ℓ} : {A : Type ℓ} (a b : A) → finished a ≡ finished b → a ≡ b
finished-eq a b e = cc
