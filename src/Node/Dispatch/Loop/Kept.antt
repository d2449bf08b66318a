-- ===== src/Node/Dispatch/Loop/Kept.antt =====
-- crates/node/src/game/host/dispatch.rs: the actions over a turn of the tick task.
use w3c_flo.Common.{
  ℕ, ◌+◌, ◌^◌, ◌%◌, ◌≡◌, refl, sym, ap, ◌∙◌, Bool, true, false, List, [], ◌∷◌, ◌++◌,
}
use mathlib.Core.List.{append_assoc, append-nil}
use w3c_flo.W3gs.Action.{PlayerAction, bytes_len}
use w3c_flo.Node.Clock.{
  ActionTickStream, Tick, set_step, add_action, replace_actions, pause, resume, next_tick,
}
use w3c_flo.Node.Sync.Slab.{SlabLaws}
use w3c_flo.Node.Dispatch.Packets.{action_log, step_set}
use w3c_flo.Node.Dispatch.Shared.{Host, Run, finished, Sh}
use w3c_flo.Node.Dispatch.Shared.Players.{IsSound}
use w3c_flo.Node.Dispatch.Shared.Removed.{broadcast_message-Removes}
use w3c_flo.Node.Dispatch.Lag.Drops.{drop_all_lag_players-Drops}
use w3c_flo.Node.Dispatch.Lag.Stops.{check_stop_lag-Stops}
use w3c_flo.Node.Dispatch.Tick.{DispatchResult, continue, lagged}
use w3c_flo.Node.Dispatch.Tick.Sound.{dispatch_action_tick-Dispatched, Dispatched}
use w3c_flo.Node.Dispatch.Loop.Queues.{new_actions, IsReady, KeepsQueues, turn-KeepsQueues}
use w3c_flo.Node.Dispatch.Loop.{
  ActionMsg, player_action, set_step_msg, check_stop_lag_msg, resume_clock, Loop, resume_running,
  stopped_lag, on_action_msg, after_dispatch, on_polled, on_tick, on_pause_timeout, Ready, message,
  tick_due, pause_over, turn,
}

module _ (H : Host) (now : ℕ) where
  -- The actions that have been broadcast and then those that wait for the next tick.
  abbrev pub all_actions : Loop H now → List PlayerAction
  all_actions l = action_log l.shared.obs ++ l.stream.actions

  Keeps : Ready → Loop H now → Run (Loop H now) → Type 0
  Keeps e l r =
      (l' : Loop H now) × (r ≡ finished l')
      × IsSound H now l'.shared
      × (all_actions l' ≡ all_actions l ++ new_actions e)

  nothing_new : (xs ys : List PlayerAction) → xs ≡ ys → xs ≡ ys ++ []
  nothing_new xs ys e = e ∙ sym (append-nil ys)

  module _ (L : SlabLaws H.slab_ops) where
    stopped_lag-IsSound :
        (l : Loop H now) (r : Bool × Sh H now)
        → IsSound H now r.1
        → IsSound H now (stopped_lag H now l r).shared
    unfolding stopped_lag resume_running
    stopped_lag-IsSound l (true, s) v = v
    stopped_lag-IsSound l (false, s) v = v

    all_actions-stopped_lag :
        (l : Loop H now) (r : Bool × Sh H now)
        → all_actions (stopped_lag H now l r) ≡ action_log r.1.obs ++ l.stream.actions
    unfolding stopped_lag resume_running resume
    all_actions-stopped_lag l (true, s) = refl
    all_actions-stopped_lag l (false, s) = refl

    stop-Keeps :
        (l : Loop H now) (b : Bool)
        → IsReady H now l
        → l.stream.paused ≡ b
        → Keeps (message check_stop_lag_msg) l (on_action_msg H now check_stop_lag_msg l)
    unfolding on_action_msg Keeps
    stop-Keeps l false v p = (l, rw p refl, v.sound, nothing_new _ _ refl)
    stop-Keeps l true v p =
        let (r, e, stops) = check_stop_lag-Stops H now L l.shared v.sound in
        (
          stopped_lag H now l r,
          rw p (rw e refl),
          stopped_lag-IsSound l r stops.leaves.sound,
          nothing_new _ _
              (all_actions-stopped_lag l r ∙ ap (λ x. x ++ l.stream.actions) stops.same_log),
        )

    message-Keeps :
        (msg : ActionMsg) (l : Loop H now)
        → IsReady H now l
        → Keeps (message msg) l (on_action_msg H now msg l)
    unfolding on_action_msg Keeps set_step add_action resume_running resume
    message-Keeps (player_action action) l v = (
      _,
      refl,
      v.sound,
      sym (append_assoc (action_log l.shared.obs) l.stream.actions (action ∷ [])),
    )
    message-Keeps (set_step_msg step) l v =
        let r = broadcast_message-Removes H now L (step_set _) l.shared v.sound in
        (_, refl, r.leaves.sound, nothing_new _ _ (ap (λ x. x ++ l.stream.actions) r.same_actions))
    message-Keeps check_stop_lag_msg l v = stop-Keeps l l.stream.paused v refl
    message-Keeps resume_clock l v = (_, refl, v.sound, nothing_new _ _ refl)

    after_dispatch-Keeps :
        (t : Tick) (l : Loop H now) (stream : ActionTickStream) (d : DispatchResult × Sh H now)
        → t.actions ≡ l.stream.actions
        → stream.actions ≡ []
        → Dispatched H now L t l.shared d
        → let l' = after_dispatch H now (record l { stream = stream }) d in
          IsSound H now l'.shared × (all_actions l' ≡ all_actions l)
    unfolding after_dispatch replace_actions pause
    after_dispatch-Keeps t l stream (continue, s) same nil (r, log) = (
      r.sound,
      ap (λ x. x ++ stream.actions) log
          ∙ ap (λ x. (action_log l.shared.obs ++ t.actions) ++ x) nil
          ∙ append-nil _
          ∙ ap (λ x. action_log l.shared.obs ++ x) same,
    )
    after_dispatch-Keeps t l stream (lagged t', s) same nil (back, (r, log), waits) = (
      r.sound,
      ap (λ x. x ++ t'.actions) (log ∙ append-nil _)
          ∙ ap (λ (x : Tick). action_log l.shared.obs ++ x.actions) back
          ∙ ap (λ x. action_log l.shared.obs ++ x) same,
    )

    tick-Keeps :
        (late : ℕ) (l : Loop H now) (b : Bool)
        → IsReady H now l
        → l.stream.paused ≡ b
        → Keeps (tick_due late) l (on_tick H now late l)
    unfolding on_tick Keeps next_tick on_polled
    tick-Keeps late l true v p = (l, rw p refl, v.sound, nothing_new _ _ refl)
    tick-Keeps late l false v p =
        let t : Tick = record {
          time_increment_ms = (l.stream.step + late % 2 ^ 16) % 2 ^ 16;
          actions = l.stream.actions;
          actions_bytes_len = bytes_len l.stream.actions;
        } in
        let (d, e, q, _) =
          dispatch_action_tick-Dispatched H now L t l.shared
            (record { size = refl; bounded = v.bounded; small = v.small }) v.sound v.counted in
        let stream : ActionTickStream = record (l.stream) {
          deadline = l.stream.deadline + l.stream.step_duration;
          actions = [];
        } in
        let (sound, same) = after_dispatch-Keeps t l stream d refl refl q in
        (
          after_dispatch H now (record l { stream = stream }) d,
          rw p (rw e refl),
          sound,
          nothing_new _ _ same,
        )

    timeout-Keeps :
        (l : Loop H now) (b : Bool)
        → IsReady H now l
        → l.stream.paused ≡ b
        → Keeps pause_over l (on_pause_timeout H now l)
    unfolding on_pause_timeout Keeps resume
    timeout-Keeps l false v p = (l, rw p refl, v.sound, nothing_new _ _ refl)
    timeout-Keeps l true v p =
        let (s, e, d) = drop_all_lag_players-Drops H now L l.shared v.sound in
        (
          record l { shared = s; stream = resume now l.stream },
          rw p (rw e refl),
          d.leaves.sound,
          nothing_new _ _ (ap (λ x. x ++ l.stream.actions) d.same_log),
        )

    turn_ends : (e : Ready) (l : Loop H now) → IsReady H now l → Keeps e l (turn H now e l)
    unfolding turn
    turn_ends (message msg) l v = message-Keeps msg l v
    turn_ends (tick_due late) l v = tick-Keeps late l l.stream.paused v refl
    turn_ends pause_over l v = timeout-Keeps l l.stream.paused v refl

    -- A turn of the loop ends, in a sound state, and loses no action and doubles none: those that the
    -- observers have been sent so far and then those that wait are what they were, in the same order,
    -- followed by the one that the turn brings; and so are, for each player that is on the map
    -- afterwards, the actions in its queue of packets and then those that wait. Before the turn the state
    -- is sound, the actions that wait are at most 1342 bytes long each and below 2 ^ 64 bytes together,
    -- and the tick number is below the last u32.
    pub turn-Keeps :
        (e : Ready) (l : Loop H now)
        → IsReady H now l
        → (l' : Loop H now) × (turn H now e l ≡ finished l')
          × IsSound H now l'.shared
          × (all_actions l' ≡ all_actions l ++ new_actions e)
          × KeepsQueues H now e l l'
    unfolding Keeps
    turn-Keeps e l v =
        let (l', runs, sound, same) = turn_ends e l v in
        (l', runs, sound, same, turn-KeepsQueues H now e l l' L v runs)
