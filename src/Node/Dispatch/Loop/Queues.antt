-- ===== src/Node/Dispatch/Loop/Queues.antt =====
-- crates/node/src/game/host/dispatch.rs: the queues of the players over a turn of the tick task.
use w3c_flo.Common.{
  ℕ, ◌+◌, ◌^◌, ◌%◌, ◌≤◌, ◌<◌, ◌≡◌, refl, sym, ap, subst, ◌∙◌, Bool, true, false, some, List, [],
  ◌∷◌, ◌++◌, Every,
}
use mathlib.Core.List.{append_assoc, append-nil}
use w3c_flo.Common.Maps.{get}
use w3c_flo.W3gs.Action.{PlayerAction, byte_len, bytes_len}
use w3c_flo.Node.Clock.{
  ActionTickStream, Tick, set_step, add_action, replace_actions, pause, resume, next_tick,
}
use w3c_flo.Node.Sync.Slab.{SlabLaws}
use w3c_flo.Node.Dispatch.Shared.Players.{IsSound}
use w3c_flo.Node.Dispatch.Fragments.{dispatch_actions_mtu}
use w3c_flo.Node.Dispatch.Packets.{PlayerInfo, step_set}
use w3c_flo.Node.Dispatch.Shared.{Host, finished, ◌>>=◌, Sh}
use w3c_flo.Node.Dispatch.Shared.Queues.{queued, Queued, Queued-refl, run_parts, finished-eq}
use w3c_flo.Node.Dispatch.Shared.Delivery.{broadcast_message-Queued}
use w3c_flo.Node.Dispatch.Lag.{check_stop_lag, drop_all_lag_players}
use w3c_flo.Node.Dispatch.Lag.Queues.{check_stop_lag-Queued, drop_all_lag_players-Queued}
use w3c_flo.Node.Dispatch.Tick.{DispatchResult, continue, lagged}
use w3c_flo.Node.Dispatch.Tick.Delivered.{Delivered}
use w3c_flo.Node.Dispatch.Tick.Sound.{Dispatched, dispatch_action_tick-Dispatched}
use w3c_flo.Node.Dispatch.Loop.{
  ActionMsg, player_action, set_step_msg, check_stop_lag_msg, resume_clock, Loop, resume_running,
  stopped_lag, on_action_msg, after_dispatch, on_polled, on_tick, on_pause_timeout, Ready, message,
  tick_due, pause_over, turn,
}

-- The action that a turn brings.
abbrev pub new_actions : Ready → List PlayerAction
new_actions (message (player_action action)) = action ∷ []
new_actions (message (set_step_msg step)) = []
new_actions (message check_stop_lag_msg) = []
new_actions (message resume_clock) = []
new_actions (tick_due late) = []
new_actions pause_over = []

module _ (H : Host) (now : ℕ) where
  -- The state is sound, the actions that wait fit into packets, and the ticks can be counted on.
  pub record IsReady (l : Loop H now) : Type 0 where
    pub sound : IsSound H now l.shared
    pub small : Every (λ a. byte_len a ≤ dispatch_actions_mtu) l.stream.actions
    pub bounded : bytes_len l.stream.actions < 2 ^ 64
    pub counted : l.shared.sync.tick + 1 < 2 ^ 32

  -- For each player that is on the map after the turn, the actions in its queue and then those that wait
  -- for the next tick are what they were, followed by the one that the turn brings.
  abbrev pub KeepsQueues : Ready → Loop H now → Loop H now → Type 0
  KeepsQueues e l l' =
      (k : ℕ) (info' : PlayerInfo)
      → get k l'.shared.map ≡ some info'
      → (info : PlayerInfo) × (get k l.shared.map ≡ some info)
        × (queued info' ++ l'.stream.actions ≡ (queued info ++ l.stream.actions) ++ new_actions e)

  keeps_queues :
      (e : Ready) (l l' : Loop H now) (sent : List PlayerAction)
      → Queued sent l.shared.map l'.shared.map
      → sent ++ l'.stream.actions ≡ l.stream.actions ++ new_actions e
      → KeepsQueues e l l'
  keeps_queues e l l' sent q h k info' f =
      let (info, g, a) = q k info' f in
      (
        info,
        g,
        ap (λ x. x ++ l'.stream.actions) a
            ∙ append_assoc (queued info) sent l'.stream.actions
            ∙ ap (λ x. queued info ++ x) h
            ∙ sym (append_assoc (queued info) l.stream.actions (new_actions e)),
      )

  -- Nothing is sent and no action comes.
  quiet_turn :
      (e : Ready) (l l' : Loop H now) {l1 : Loop H now}
      → new_actions e ≡ []
      → finished l1 ≡ finished l'
      → Queued [] l.shared.map l1.shared.map
      → l1.stream.actions ≡ l.stream.actions
      → KeepsQueues e l l'
  quiet_turn e l l' {l1 = l1} n f q h = subst (KeepsQueues e l) (finished-eq l1 l' f) (
      keeps_queues e l l1 [] q
        (h ∙ sym (append-nil l.stream.actions) ∙ ap (λ x. l.stream.actions ++ x) (sym n)))

  stopped_lag_turn :
      (l l' : Loop H now) (r : Bool × Sh H now)
      → Queued [] l.shared.map r.1.map
      → finished (stopped_lag H now l r) ≡ finished l'
      → KeepsQueues (message check_stop_lag_msg) l l'
  unfolding stopped_lag resume_running resume
  stopped_lag_turn l l' (true, s) q f = quiet_turn (message check_stop_lag_msg) l l' refl f q refl
  stopped_lag_turn l l' (false, s) q f = quiet_turn (message check_stop_lag_msg) l l' refl f q refl

  stop_turn :
      (l l' : Loop H now) (b : Bool)
      → l.stream.paused ≡ b
      → on_action_msg H now check_stop_lag_msg l ≡ finished l'
      → KeepsQueues (message check_stop_lag_msg) l l'
  unfolding on_action_msg
  stop_turn l l' false p e =
      let same : on_action_msg H now check_stop_lag_msg l ≡ finished l = rw p refl in
      quiet_turn (message check_stop_lag_msg) l l' refl (sym same ∙ e) (Queued-refl l.shared.map)
        refl
  stop_turn l l' true p e =
      let runs : on_action_msg H now check_stop_lag_msg l
          ≡ (check_stop_lag H now l.shared >>= (λ r. finished (stopped_lag H now l r))) =
        rw p refl in
      let (r, f, g) = run_parts (check_stop_lag H now l.shared) _ (sym runs ∙ e) in
      stopped_lag_turn l l' r (check_stop_lag-Queued H now l.shared r f) g

  message_turn :
      (msg : ActionMsg) (l l' : Loop H now)
      → on_action_msg H now msg l ≡ finished l'
      → KeepsQueues (message msg) l l'
  unfolding on_action_msg set_step add_action resume_running resume
  message_turn (player_action action) l l' e =
      subst (KeepsQueues (message (player_action action)) l) (finished-eq _ l' e) (
        keeps_queues (message (player_action action)) l
          (record l { stream = add_action action l.stream }) [] (Queued-refl l.shared.map) refl)
  message_turn (set_step_msg step) l l' e =
      quiet_turn (message (set_step_msg step)) l l' refl e
        (broadcast_message-Queued H now (step_set (set_step now step l.stream).step) l.shared) refl
  message_turn check_stop_lag_msg l l' e = stop_turn l l' l.stream.paused refl e
  message_turn resume_clock l l' e =
      quiet_turn (message resume_clock) l l' refl e (Queued-refl l.shared.map) refl

  pause_turn :
      (l l' : Loop H now) (b : Bool)
      → l.stream.paused ≡ b
      → on_pause_timeout H now l ≡ finished l'
      → KeepsQueues pause_over l l'
  unfolding on_pause_timeout resume
  pause_turn l l' false p e =
      let same : on_pause_timeout H now l ≡ finished l = rw p refl in
      quiet_turn pause_over l l' refl (sym same ∙ e) (Queued-refl l.shared.map) refl
  pause_turn l l' true p e =
      let runs : on_pause_timeout H now l ≡ (
          drop_all_lag_players H now l.shared
          >>= (λ s. finished (record l { shared = s; stream = resume now l.stream }))) =
        rw p refl in
      let (s, f, g) = run_parts (drop_all_lag_players H now l.shared) _ (sym runs ∙ e) in
      quiet_turn pause_over l l' refl g (drop_all_lag_players-Queued H now l.shared s f) refl

  after_dispatch-KeepsQueues :
      (late : ℕ) (t : Tick) (l l' : Loop H now) (stream : ActionTickStream)
      (d : DispatchResult × Sh H now)
      → t.actions ≡ l.stream.actions
      → stream.actions ≡ []
      → (L : SlabLaws H.slab_ops) → Dispatched H now L t l.shared d
      → Delivered H now t l.shared d
      → finished (after_dispatch H now (record l { stream = stream }) d) ≡ finished l'
      → KeepsQueues (tick_due late) l l'
  unfolding after_dispatch replace_actions pause
  after_dispatch-KeepsQueues late t l l' stream (continue, s) same nil L p q e =
      subst (KeepsQueues (tick_due late) l) (finished-eq _ l' e) (
        keeps_queues (tick_due late) l (record l { stream = stream; shared = s }) t.actions q
          (ap (λ x. t.actions ++ x) nil ∙ ap (λ x. x ++ []) same))
  after_dispatch-KeepsQueues late t l l' stream (lagged t', s) same nil L (back, _, _) q e =
      quiet_turn (tick_due late) l l' refl e q (ap (λ (x : Tick). x.actions) back ∙ same)

  tick_turn :
      (late : ℕ) (l l' : Loop H now) (b : Bool)
      → SlabLaws H.slab_ops
      → IsReady l
      → l.stream.paused ≡ b
      → on_tick H now late l ≡ finished l'
      → KeepsQueues (tick_due late) l l'
  unfolding on_tick next_tick on_polled
  tick_turn late l l' true L v p e =
      let same : on_tick H now late l ≡ finished l = rw p refl in
      quiet_turn (tick_due late) l l' refl (sym same ∙ e) (Queued-refl l.shared.map) refl
  tick_turn late l l' false L v p e =
      let t : Tick = record {
        time_increment_ms = (l.stream.step + late % 2 ^ 16) % 2 ^ 16;
        actions = l.stream.actions;
        actions_bytes_len = bytes_len l.stream.actions;
      } in
      let stream : ActionTickStream = record (l.stream) {
        deadline = l.stream.deadline + l.stream.step_duration;
        actions = [];
      } in
      let (d, runs, p1, q1) =
        dispatch_action_tick-Dispatched H now L t l.shared
          (record { size = refl; bounded = v.bounded; small = v.small }) v.sound v.counted in
      let ends : on_tick H now late l
          ≡ finished (after_dispatch H now (record l { stream = stream }) d) =
        rw p (rw runs refl) in
      after_dispatch-KeepsQueues late t l l' stream d refl refl L p1 q1 (sym ends ∙ e)

  pub turn-KeepsQueues :
      (e : Ready) (l l' : Loop H now)
      → SlabLaws H.slab_ops
      → IsReady l
      → turn H now e l ≡ finished l'
      → KeepsQueues e l l'
  unfolding turn
  turn-KeepsQueues (message msg) l l' L v h = message_turn msg l l' h
  turn-KeepsQueues (tick_due late) l l' L v h = tick_turn late l l' l.stream.paused L v refl h
  turn-KeepsQueues pause_over l l' L v h = pause_turn l l' l.stream.paused refl h
