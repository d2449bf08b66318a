-- ===== src/Node/DelayedFrames/Order.antt =====
-- crates/node/src/game/host/delay.rs: the frames leave in the order in which they came.
use w3c_flo.Common.{
  ℕ, ◌+◌, ◌-◌, ◌≡◌, refl, sym, ap, ◌∙◌, Option, none, some, List, [], ◌∷◌, ◌++◌, leb, ◌/◌, ◌==◌,
  if_cases,
}
use mathlib.Core.List.{append_assoc, append-nil}
use w3c_flo.Node.DelayedFrames.{
  DelayedFrame, DelayedFrameStream, set_delay, frames_of, delayed_list, remove_delay, insert_frame,
  last_tick_cost, take_frame, take_delayed, poll_expired,
}

-- A call, at an instant.
pub data Call (Frame : Type 0) : Type 0 where
  inserting : DelayedFrame Frame → Call Frame
  polling : Call Frame
  setting : ℕ → Call Frame
  removing : Call Frame

module _ {Frame : Type 0} where
  -- The frames that are held back, the oldest first.
  abbrev pub held : DelayedFrameStream Frame → List (DelayedFrame Frame)
  held s = delayed_list s.delayed ++ frames_of s.frames

  abbrev or_empty : Option (List (DelayedFrame Frame)) → List (DelayedFrame Frame)
  or_empty none = []
  or_empty (some frames) = frames

  -- The frames that a call hands over, and the stream after it.
  abbrev pub call :
      ℕ
      → Call Frame
      → DelayedFrameStream Frame
      → List (DelayedFrame Frame) × DelayedFrameStream Frame
  call now (inserting frame) s = ([], insert_frame now frame s)
  call now polling s = poll_expired now s
  call now (setting delay) s = ([], set_delay now delay s)
  call now removing s = (or_empty (remove_delay s).0, (remove_delay s).1)

  abbrev pub call_all :
      List (ℕ × Call Frame)
      → DelayedFrameStream Frame
      → List (DelayedFrame Frame) × DelayedFrameStream Frame
  call_all [] s = ([], s)
  call_all ((now, c) ∷ calls) s =
      let (out, s') = call now c s in let (more, s'') = call_all calls s' in (out ++ more, s'')

  abbrev pub inserted : List (ℕ × Call Frame) → List (DelayedFrame Frame)
  inserted [] = []
  inserted ((now, inserting frame) ∷ calls) = frame ∷ inserted calls
  inserted ((now, polling) ∷ calls) = inserted calls
  inserted ((now, setting delay) ∷ calls) = inserted calls
  inserted ((now, removing) ∷ calls) = inserted calls

  Keeps : DelayedFrameStream Frame → List (DelayedFrame Frame) × DelayedFrameStream Frame → Type 0
  Keeps s (out, s') = out ++ held s' ≡ held s

  frames_of-append :
      (xs ys : List (DelayedFrame Frame × ℕ)) → frames_of (xs ++ ys) ≡ frames_of xs ++ frames_of ys
  frames_of-append [] ys = refl
  frames_of-append ((f, d) ∷ xs) ys = ap (λ l. f ∷ l) (frames_of-append xs ys)

  take_frame-Keeps :
      (now : ℕ) (frames : List (DelayedFrame Frame × ℕ)) (s : DelayedFrameStream Frame)
      → s.frames ≡ frames
      → s.delayed ≡ none
      → Keeps s (take_frame now frames s)
  unfolding take_frame Keeps
  take_frame-Keeps now [] s e d = refl
  take_frame-Keeps now ((f, deadline) ∷ frames) s e d =
      if_cases (Keeps s) (leb (now + (deadline - now - last_tick_cost now s.last_deadline)) now) _ _
        (λ _. rw (d, e) refl) (λ _. rw (d, e) refl)

  take_delayed-Keeps :
      (now : ℕ) (delayed : Option (DelayedFrame Frame)) (s : DelayedFrameStream Frame)
      → s.delayed ≡ delayed
      → Keeps s (take_delayed now delayed s)
  unfolding take_delayed Keeps
  take_delayed-Keeps now none s d = take_frame-Keeps now s.frames s refl d
  take_delayed-Keeps now (some f) s d = rw d refl

  poll_expired-Keeps : (now : ℕ) (s : DelayedFrameStream Frame) → Keeps s (poll_expired now s)
  unfolding poll_expired Keeps
  poll_expired-Keeps now s =
      if_cases (Keeps s) (leb s.sleep now) _ _ (λ _. take_delayed-Keeps now s.delayed s refl)
        (λ _. refl)

  remove_delay-Keeps :
      (s : DelayedFrameStream Frame) (frames : List (DelayedFrame Frame × ℕ))
      → s.frames ≡ frames
      → Keeps s (call 0 removing s)
  unfolding remove_delay Keeps
  remove_delay-Keeps s [] e = rw e refl
  remove_delay-Keeps s (f ∷ frames) e = rw e (append-nil _)

  call-held :
      (now : ℕ) (c : Call Frame) (s : DelayedFrameStream Frame)
      → (call now c s).0 ++ held (call now c s).1 ≡ held s ++ inserted ((now, c) ∷ [])
  unfolding insert_frame set_delay Keeps
  call-held now (inserting f) s =
      ap (λ l. delayed_list s.delayed ++ l) (frames_of-append s.frames _)
      ∙ sym (append_assoc (delayed_list s.delayed) (frames_of s.frames) (f ∷ []))
  call-held now polling s = poll_expired-Keeps now s ∙ sym (append-nil (held s))
  call-held now (setting delay) s =
      if_cases (λ (s' : DelayedFrameStream Frame). held s' ≡ held s ++ []) (s.duration == delay / 2)
        _ _ (λ _. sym (append-nil (held s))) (λ _. sym (append-nil (held s)))
  call-held now removing s = remove_delay-Keeps s s.frames refl ∙ sym (append-nil (held s))

  inserted_first :
      (now : ℕ) (c : Call Frame) (calls : List (ℕ × Call Frame))
      → inserted ((now, c) ∷ []) ++ inserted calls ≡ inserted ((now, c) ∷ calls)
  inserted_first now (inserting f) calls = refl
  inserted_first now polling calls = refl
  inserted_first now (setting delay) calls = refl
  inserted_first now removing calls = refl

  -- Whatever is called and when, the frames handed over and then those still held back are the frames that
  -- were held back before and then those inserted: none is lost or doubled, and they keep their order.
  pub call_all-held :
      (calls : List (ℕ × Call Frame)) (s : DelayedFrameStream Frame)
      → (call_all calls s).0 ++ held (call_all calls s).1 ≡ held s ++ inserted calls
  call_all-held [] s = sym (append-nil (held s))
  call_all-held ((now, c) ∷ calls) s =
      let s1 = (call now c s).1 in
      append_assoc (call now c s).0 (call_all calls s1).0 (held (call_all calls s1).1)
      ∙ ap (λ l. (call now c s).0 ++ l) (call_all-held calls s1)
      ∙ sym (append_assoc (call now c s).0 (held s1) (inserted calls))
      ∙ ap (λ l. l ++ inserted calls) (call-held now c s)
      ∙ append_assoc (held s) (inserted ((now, c) ∷ [])) (inserted calls)
      ∙ ap (λ l. held s ++ l) (inserted_first now c calls)
