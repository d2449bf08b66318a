-- ===== src/Node/Dispatch/Peers/Leave.antt =====
-- crates/node/src/game/host/dispatch.rs: a player that leaves, and the message of a stream that is closed.
use w3c_flo.Common.{
  ℕ, ◌≡◌, refl, sym, ap, subst, arith, ◌∙◌, Bool, true, false, Option, some, List, [], ◌∷◌, ◌++◌,
  if◌then◌else◌,
}
use mathlib.Core.List.{append-nil}
use w3c_flo.Common.Maps.{get, has_key, insert, has_key-get, get-has_key, has_key-insert}
use w3c_flo.Common.Maps.Keys.{insert-SameKeys}
use w3c_flo.Node.Session.{GameEvent, player_status_change}
use w3c_flo.Node.Session.Status.{left, SlotClientStatusUpdateSource}
use w3c_flo.Node.Sync.Slab.{SlabLaws}
use w3c_flo.Node.Dispatch.Packets.{LeaveReason, PlayerInfo}
use w3c_flo.Node.Dispatch.Shared.{Host, finished, Sh}
use w3c_flo.Node.Dispatch.Shared.Players.{IsSound, Leaves, Removes, Removes-same, Removes-trans}
use w3c_flo.Node.Dispatch.Shared.Removed.{remove_player_and_broadcast-Removes}
use w3c_flo.Node.Dispatch.Loop.{check_stop_lag_msg}
use w3c_flo.Node.Dispatch.Peers.{
  peer_ok, State, send_action, send_status, send_leave_ack, check_lag_then_left, leave_found,
  handle_player_leave,
}

module _ (H : Host) (now : ℕ) where
  -- What the session and the tick task are told of a player that has left.
  pub record Left (player_id : ℕ) (st st' : State H now) : Type 0 where
    pub leaves : Leaves H now st.shared st'.shared
    pub off_map : has_key player_id st'.shared.map ≡ false
    pub noted : has_key player_id st'.left_players ≡ true
    pub told :
        st'.out_tx
        ≡ st.out_tx ++ (player_status_change player_id left SlotClientStatusUpdateSource.node ∷ [])
    pub checked :
        st'.action_tx
        ≡ st.action_tx
          ++ (if has_key player_id st.shared.lagging_player_ids
              then check_stop_lag_msg ∷ []
              else [])

  record Asked (b : Bool) (st st' : State H now) : Type 0 where
    shared : st'.shared ≡ st.shared
    left_players : st'.left_players ≡ st.left_players
    out_tx : st'.out_tx ≡ st.out_tx
    action_tx : st'.action_tx ≡ st.action_tx ++ (if b then check_stop_lag_msg ∷ [] else [])

  ask :
      (b : Bool) (st : State H now)
      → Asked b st (if b then send_action H now check_stop_lag_msg st else st)
  unfolding send_action
  ask true st = record { shared = refl; left_players = refl; out_tx = refl; action_tx = refl }
  ask false st = record {
    shared = refl;
    left_players = refl;
    out_tx = refl;
    action_tx = sym (append-nil st.action_tx);
  }

  send_leave_ack-Removes :
      (player_id : ℕ) (info : PlayerInfo) (s : Sh H now)
      → IsSound H now s
      → get player_id s.map ≡ some info
      → Removes H now s (send_leave_ack H now player_id info s)
  unfolding send_leave_ack
  send_leave_ack-Removes player_id info s v e =
      Removes-same H now s _ v
        (insert-SameKeys player_id 0 _ s.map v.map_sorted (has_key-get player_id s.map e)) refl refl
        refl refl refl refl

  module _ (L : SlabLaws H.slab_ops) where
    leave_found-Left :
        (player_id : ℕ) (reason : Option LeaveReason) (info : PlayerInfo) (st : State H now)
        → IsSound H now st.shared
        → get player_id st.shared.map ≡ some info
        → let noted : State H now = record st {
          left_players = insert player_id tt st.left_players;
        } in
          (st' : State H now) × (leave_found H now player_id reason (some info) noted
            ≡ finished (peer_ok, st'))
          × Left player_id st st'
    unfolding leave_found check_lag_then_left send_status
    leave_found-Left player_id reason info st v e =
        let s1 = send_leave_ack H now player_id info st.shared in
        let acked = send_leave_ack-Removes player_id info st.shared v e in
        let (s2, f, (r, off)) =
          remove_player_and_broadcast-Removes H now L player_id reason s1 acked.leaves.sound in
        let all = Removes-trans H now st.shared s1 s2 acked r in
        let noted : State H now = record st {
          shared = s2;
          left_players = insert player_id tt st.left_players;
        } in
        let asked = ask (has_key player_id s2.lagging_player_ids) noted in
        (
          check_lag_then_left H now player_id noted,
          rw f refl,
          record {
            leaves = subst (λ x. Leaves H now st.shared x) (sym asked.shared) all.leaves;
            off_map = ap (λ (x : Sh H now). has_key player_id x.map) asked.shared ∙ off;
            noted =
                ap (has_key player_id) asked.left_players
                ∙ has_key-insert player_id player_id tt st.left_players
                ∙ ground arith;
            told =
                ap
                  (λ (x : List GameEvent).
                    x
                    ++ (player_status_change player_id left SlotClientStatusUpdateSource.node ∷ []))
                  asked.out_tx;
            checked =
                asked.action_tx
                ∙ ap
                    (λ x.
                      st.action_tx ++ (if has_key player_id x then check_stop_lag_msg ∷ [] else []))
                    all.same_lagging;
          },
        )

    -- When a player of a sound state leaves, it is taken off the map, in a sound state, and noted as left;
    -- the session is told that it has left, once, and the tick task is asked to look at the lagging
    -- players exactly when it was one of them.
    pub handle_player_leave-Left :
        (player_id : ℕ) (reason : Option LeaveReason) (st : State H now)
        → IsSound H now st.shared
        → has_key player_id st.shared.map ≡ true
        → (st' : State H now) × (handle_player_leave H now player_id reason st
            ≡ finished (peer_ok, st'))
          × Left player_id st st'
    unfolding handle_player_leave
    handle_player_leave-Left player_id reason st v on =
        let (info, e) = get-has_key player_id st.shared.map on in
        let (st', f, l) = leave_found-Left player_id reason info st v e in
        (
          st',
          ap
                (λ o.
                  leave_found H now player_id reason o
                    (record st { left_players = insert player_id tt st.left_players }))
                e
              ∙ f,
          l,
        )
