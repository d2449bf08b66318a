-- ===== src/Node/DelayedFrames.antt =====
-- crates/node/src/game/host/delay.rs: the frames of a player that are held back. An instant and a
-- duration are numbers of nanoseconds, and `now` is the instant of the call; the timer is done from its
-- deadline on. Wakers are left out.
pub mod Order
use w3c_flo.Common.{
  ℕ, ◌+◌, ◌-◌, ◌/◌, Bool, Option, none, some, List, [], ◌∷◌, ◌++◌, ltb, leb, ◌==◌, if◌then◌else◌,
}

pub data DelayedFrame (Frame : Type 0) : Type 0 where
  in_frame out_frame : Frame → DelayedFrame Frame

-- `sleep` is the deadline of the timer.
pub record DelayedFrameStream (Frame : Type 0) : Type 0 where
  pub sleep : ℕ
  pub frames : List (DelayedFrame Frame × ℕ)
  pub duration : ℕ
  pub delayed : Option (DelayedFrame Frame)
  pub last_deadline : Option ℕ

abbrev pub last_tick_cost : ℕ → Option ℕ → ℕ
last_tick_cost now none = 0
last_tick_cost now (some last) = now - last

module _ {Frame : Type 0} where
  unfoldable pub new_delayed : ℕ → Option ℕ → DelayedFrameStream Frame
  new_delayed now duration = record {
    sleep = now;
    frames = [];
    duration = elim duration [ none ↦ 0 | some v ↦ v / 2 ];
    delayed = none;
    last_deadline = none;
  }

  unfoldable pub set_delay : ℕ → ℕ → DelayedFrameStream Frame → DelayedFrameStream Frame
  set_delay now delay s =
      if s.duration == delay / 2 then s else record s { duration = delay / 2; sleep = now }

  abbrev pub frames_of : List (DelayedFrame Frame × ℕ) → List (DelayedFrame Frame)
  frames_of [] = []
  frames_of ((frame, _) ∷ frames) = frame ∷ frames_of frames

  abbrev pub delayed_list : Option (DelayedFrame Frame) → List (DelayedFrame Frame)
  delayed_list none = []
  delayed_list (some frame) = frame ∷ []

  unfoldable pub remove_delay :
      DelayedFrameStream Frame → Option (List (DelayedFrame Frame)) × DelayedFrameStream Frame
  remove_delay s = elim s.frames [
    | [] ↦ (none, record s { duration = 0 })
    | frame ∷ frames ↦ (
      some (delayed_list s.delayed ++ frames_of (frame ∷ frames)),
      record s { duration = 0; delayed = none; frames = [] },
    )
  ]

  unfoldable pub enabled : DelayedFrameStream Frame → Bool
  enabled s = ltb 0 s.duration

  unfoldable pub insert_frame :
      ℕ → DelayedFrame Frame → DelayedFrameStream Frame → DelayedFrameStream Frame
  insert_frame now frame s = record s { frames = s.frames ++ ((frame, now + s.duration) ∷ []) }

  -- The first frame is taken off the queue, and handed over if its time has come.
  unfoldable pub take_frame :
      ℕ
      → List (DelayedFrame Frame × ℕ)
      → DelayedFrameStream Frame
      → List (DelayedFrame Frame) × DelayedFrameStream Frame
  take_frame now [] s = ([], s)
  take_frame now ((frame, deadline) ∷ frames) s =
      let next = now + (deadline - now - last_tick_cost now s.last_deadline) in
      let s' = record s { frames = frames; last_deadline = some next; sleep = next } in
      if leb next now then (frame ∷ [], s') else ([], record s' { delayed = some frame })

  unfoldable pub take_delayed :
      ℕ
      → Option (DelayedFrame Frame)
      → DelayedFrameStream Frame
      → List (DelayedFrame Frame) × DelayedFrameStream Frame
  unfolding take_frame
  take_delayed now (some frame) s = (frame ∷ [], record s { delayed = none })
  take_delayed now none s = take_frame now s.frames s

  -- `ExpiredFuture::poll`: the frames put into the buffer.
  unfoldable pub poll_expired :
      ℕ → DelayedFrameStream Frame → List (DelayedFrame Frame) × DelayedFrameStream Frame
  unfolding take_delayed
  poll_expired now s = if leb s.sleep now then take_delayed now s.delayed s else ([], s)
