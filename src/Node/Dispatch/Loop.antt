-- ===== src/Node/Dispatch/Loop.antt =====
-- crates/node/src/game/host/dispatch.rs: the tick task of a game that has started. Each turn of its loop is
-- one of the functions here. `status` is the status sent last.
pub mod Queues
pub mod Kept
use w3c_flo.Common.{ℕ, ◌+◌, ◌-◌, ◌*◌, Bool, true, false, Option, none, some, List, [], ◌∷◌, ◌++◌}
use w3c_flo.W3gs.Action.{PlayerAction}
use w3c_flo.Node.Clock.{
  ActionTickStream, Tick, set_step, add_action, replace_actions, pause, resume, next_tick,
}
use w3c_flo.Node.Dispatch.Packets.{step_set}
use w3c_flo.Node.Dispatch.Shared.{Host, Shared, Run, finished, ◌>>=◌, Sh, broadcast_message}
use w3c_flo.Node.Dispatch.Lag.{check_stop_lag, drop_all_lag_players}
use w3c_flo.Node.Dispatch.Tick.{DispatchResult, continue, lagged, dispatch_action_tick}

pub data ActionMsg : Type 0 where
  player_action : PlayerAction → ActionMsg
  set_step_msg : ℕ → ActionMsg
  check_stop_lag_msg resume_clock : ActionMsg

pub data DispatchStatus : Type 0 where
  pending running paused : DispatchStatus

-- `crate::constants::GAME_CLOCK_MAX_PAUSE`.
abbrev pub game_clock_max_pause_ms : ℕ
game_clock_max_pause_ms = (60 - 3) * 1000

module _ (H : Host) (now : ℕ) where
  pub record Loop : Type 0 where
    pub stream : ActionTickStream
    pub pause_deadline : ℕ
    pub status : DispatchStatus
    pub shared : Sh H now

  unfoldable pub resume_running : Loop → Loop
  unfolding resume
  resume_running l = record l { stream = resume now l.stream; status = running }

  unfoldable pub stopped_lag : Loop → Bool × Sh H now → Loop
  unfolding resume_running
  stopped_lag l (true, s) = resume_running (record l { shared = s })
  stopped_lag l (false, s) = record l { shared = s }

  -- A message to the task.
  unfoldable pub on_action_msg : ActionMsg → Loop → Run Loop
  unfolding stopped_lag set_step add_action
  on_action_msg (player_action action) l =
      finished (record l { stream = add_action action l.stream })
  on_action_msg (set_step_msg step) l =
      let stream = set_step now step l.stream in
      finished (record l {
        stream = stream;
        shared = broadcast_message H now (step_set stream.step) l.shared;
      })
  on_action_msg check_stop_lag_msg l = elim l.stream.paused [
    | false ↦ finished l
    | true ↦ (do r ← check_stop_lag H now l.shared; finished (stopped_lag l r))
  ]
  on_action_msg resume_clock l = finished (resume_running l)

  -- A tick that waits is put back, and the stream pauses.
  unfoldable pub after_dispatch : Loop → DispatchResult × Sh H now → Loop
  unfolding replace_actions pause
  after_dispatch l (continue, s) = record l { shared = s }
  after_dispatch l (lagged tick, s) = record l {
    stream = pause now (replace_actions tick.actions l.stream);
    pause_deadline = now + game_clock_max_pause_ms;
    status = paused;
    shared = s;
  }

  unfoldable pub on_polled : Option Tick × ActionTickStream → Loop → Run Loop
  unfolding after_dispatch
  on_polled (none, stream) l = finished (record l { stream = stream })
  on_polled (some tick, stream) l = do
    r ← dispatch_action_tick H now tick l.shared
    finished (after_dispatch (record l { stream = stream }) r)

  -- The timer of the stream is done.
  unfoldable pub on_tick : ℕ → Loop → Run Loop
  unfolding next_tick on_polled
  on_tick late l = on_polled (next_tick late l.stream) l

  -- The pause is over: the players that lag are dropped. The status is not sent.
  unfoldable pub on_pause_timeout : Loop → Run Loop
  unfolding resume
  on_pause_timeout l = elim l.stream.paused [
    | false ↦ finished l
    | true ↦ (do
      s ← drop_all_lag_players H now l.shared
      finished (record l { shared = s; stream = resume now l.stream }))
  ]

-- What `select` may find ready.
pub data Ready : Type 0 where
  message : ActionMsg → Ready
  tick_due : ℕ → Ready
  pause_over : Ready

module _ (H : Host) (now : ℕ) where
  unfoldable pub turn : Ready → Loop H now → Run (Loop H now)
  unfolding on_action_msg on_tick on_pause_timeout
  turn (message msg) l = on_action_msg H now msg l
  turn (tick_due late) l = on_tick H now late l
  turn pause_over l = on_pause_timeout H now l
