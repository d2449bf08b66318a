-- ===== src/Node/Clock.antt =====
-- crates/node/src/game/host/clock.rs: the stream of the ticks. The timer is tokio's; of a tick that is
-- ready, `late` is how many milliseconds it is late. A u16 wraps. Durations are in milliseconds.
use w3c_flo.Common.{
  ℕ, ◌+◌, ◌%◌, ◌^◌, min, max, Bool, true, false, Option, none, some, List, [], ◌∷◌, ◌++◌,
}
use w3c_flo.W3gs.Action.{PlayerAction, bytes_len}

abbrev pub min_step : ℕ
min_step = 15

abbrev pub max_step : ℕ
max_step = 250

-- `deadline` is the next instant of the timer.
pub record ActionTickStream : Type 0 where
  pub paused : Bool
  pub step : ℕ
  pub step_duration : ℕ
  pub deadline : ℕ
  pub actions : List PlayerAction

pub record Tick : Type 0 where
  pub time_increment_ms : ℕ
  pub actions : List PlayerAction
  pub actions_bytes_len : ℕ

unfoldable pub new_stream : ℕ → ℕ → ActionTickStream
new_stream now step =
    let clamped = max min_step step in
    record {
      paused = false;
      step = clamped;
      step_duration = clamped;
      deadline = now + clamped;
      actions = [];
    }

unfoldable pub set_step : ℕ → ℕ → ActionTickStream → ActionTickStream
set_step now value s = record s {
  step = min max_step (max min_step value);
  step_duration = value;
  deadline = now + value;
}

unfoldable pub add_action : PlayerAction → ActionTickStream → ActionTickStream
add_action action s = record s { actions = s.actions ++ (action ∷ []) }

unfoldable pub replace_actions : List PlayerAction → ActionTickStream → ActionTickStream
replace_actions actions s = record s { actions = actions }

unfoldable pub pause : ℕ → ActionTickStream → ActionTickStream
pause now s = record s { paused = true; deadline = now }

unfoldable pub resume : ℕ → ActionTickStream → ActionTickStream
resume now s = record s { paused = false; deadline = now + s.step_duration }

-- Polled when the timer is done: a tick with all actions, unless the stream is paused.
unfoldable pub next_tick : ℕ → ActionTickStream → Option Tick × ActionTickStream
next_tick late s = elim s.paused [
  | true ↦ (none, s)
  | false ↦ (
    some (record {
      time_increment_ms = (s.step + late % 2 ^ 16) % 2 ^ 16;
      actions = s.actions;
      actions_bytes_len = bytes_len s.actions;
    }),
    record s { deadline = s.deadline + s.step_duration; actions = [] },
  )
]
