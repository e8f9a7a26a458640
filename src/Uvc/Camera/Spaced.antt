-- ===== src/Uvc/Camera/Spaced.antt =====
-- cam_thread: the time between the pictures that it publishes when it drops pictures for their rate.
use raspberry_car.Base.{
  ℕ, ◌+◌, ◌-◌, ◌^◌, ◌≤◌, ◌<◌, ◌≡◌, ◌⊎◌, refl, subst, sym, Bool, true, false, List, [], ◌∷◌, ◌++◌,
  Option, none, some, ltb, leb, if◌then◌else◌, map, take, length, arith, Bool-cases, inl, inr,
}
use raspberry_car.Http.Clients.{Timeval}
use raspberry_car.Http.Stream.{Frame}
use raspberry_car.Uvc.Pixels.{yuyv, rgb24, rgb565, uyvy, other}
use raspberry_car.Uvc.Device.{
  FormatIn, mjpeg, raw, StreamingState, streaming_off, streaming_on, streaming_paused, VdIn, Result,
  ok, failed, trapped, ◌>>=◌, guard, Dequeued, Grab, stored, overlay, take_buffer, video_enable,
  start_streaming, dequeue, uvc_grab, headerframe1,
}
use raspberry_car.Uvc.Device.Setup.{Change}
use raspberry_car.Uvc.Camera.{
  Settings, Camera, Turned, turned, left, crashed, prepend, and_then, Selected, interrupted, broken,
  timed_out, ready, round, to_milliseconds, elapsed, too_soon, stamped, picture_as, publish,
  grabbed, after_grab, handle_event, selected, turn, happens, cam_loop,
}

-- The published pictures, whatever comes after them.
abbrev pub published : Turned → List Frame
published (turned frames c) = frames
published (left frames) = frames
published (crashed why frames) = frames

abbrev pub time_of : Frame → ℕ
time_of f = to_milliseconds f.tv_sec f.tv_usec

-- Each picture is at least a period later than the one before it, or the clock went back.
abbrev pub Spaced : ℕ → ℕ → List Frame → Type 0
Spaced period last [] = Unit {0}
Spaced period last (f ∷ frames) =
    ((time_of f < last) ⊎ (last + period ≤ time_of f)) × Spaced period (time_of f) frames

elapsed_cases :
    (now last period : ℕ)
    → now < 2 ^ 64
    → last < 2 ^ 64
    → ltb (elapsed now last) period ≡ false
    → (now < last) ⊎ (last + period ≤ now)
unfolding elapsed
elapsed_cases now last period h k e = ground arith

-- A device that drops pictures for their rate, with a fixed period.
abbrev Drops : ℕ → VdIn → Type 0
Drops period vd =
    (vd.soft_framedrop ≡ true) × (vd.frame_period_time ≡ period) × (vd.dv_timings ≡ false)

abbrev StillDrops : ℕ → Result → Type 0
StillDrops period (ok vd) = Drops period vd
StillDrops period (failed vd) = Unit {0}
StillDrops period trapped = Unit {0}

module _ (period : ℕ) where
  StillDrops-bind :
      (r : Result) (f : VdIn → Result)
      → StillDrops period r
      → ((vd : VdIn) → Drops period vd → StillDrops period (f vd))
      → StillDrops period (r >>= f)
  StillDrops-bind (ok vd) f h step = step vd h
  StillDrops-bind (failed vd) f h step = tt
  StillDrops-bind trapped f h step = tt

  guard-StillDrops : (b : Bool) (vd : VdIn) → Drops period vd → StillDrops period (guard b vd)
  guard-StillDrops true vd h = h
  guard-StillDrops false vd h = tt

  stored-StillDrops :
      (mem : Option (List ℕ)) (f : List ℕ → VdIn)
      → ((m : List ℕ) → Drops period (f m))
      → StillDrops period (stored mem f)
  stored-StillDrops none f h = tt
  stored-StillDrops (some m) f h = h m

  take_buffer-StillDrops :
      (f : FormatIn) (d : Dequeued) (vd : VdIn)
      → Drops period vd
      → StillDrops period (take_buffer f d vd)
  unfolding take_buffer
  take_buffer-StillDrops mjpeg d vd h = elim (Bool-cases (leb (length d.bytes) headerframe1)) [
    | inl empty ↦ rw empty h
    | inr full ↦ rw full (stored-StillDrops (overlay vd.tmpbuffer d.bytes) _ (λ m. h))
  ]
  take_buffer-StillDrops (raw other) d vd h = tt
  take_buffer-StillDrops (raw yuyv) d vd h =
      stored-StillDrops (overlay vd.framebuffer (take vd.framesize_in d.bytes)) _ (λ m. h)
  take_buffer-StillDrops (raw uyvy) d vd h =
      stored-StillDrops (overlay vd.framebuffer (take vd.framesize_in d.bytes)) _ (λ m. h)
  take_buffer-StillDrops (raw rgb24) d vd h =
      stored-StillDrops (overlay vd.framebuffer (take vd.framesize_in d.bytes)) _ (λ m. h)
  take_buffer-StillDrops (raw rgb565) d vd h =
      stored-StillDrops (overlay vd.framebuffer (take vd.framesize_in d.bytes)) _ (λ m. h)

  dequeue-StillDrops :
      (d : Option Dequeued) (requeues : Bool) (vd : VdIn)
      → Drops period vd
      → StillDrops period (dequeue d requeues vd)
  unfolding dequeue
  dequeue-StillDrops none requeues vd h = tt
  dequeue-StillDrops (some d) requeues vd h =
      StillDrops-bind (take_buffer vd.format_in d vd) (guard requeues)
        (take_buffer-StillDrops vd.format_in d vd h) (guard-StillDrops requeues)

  start_streaming-StillDrops :
      (s : StreamingState) (streams : Bool) (vd : VdIn)
      → Drops period vd
      → StillDrops period (start_streaming s streams vd)
  unfolding start_streaming video_enable
  start_streaming-StillDrops streaming_off true vd h = h
  start_streaming-StillDrops streaming_off false vd h = tt
  start_streaming-StillDrops streaming_on streams vd h = h
  start_streaming-StillDrops streaming_paused streams vd h = h

  uvc_grab-StillDrops : (g : Grab) (vd : VdIn) → Drops period vd → StillDrops period (uvc_grab g vd)
  unfolding uvc_grab
  uvc_grab-StillDrops g vd h =
      StillDrops-bind (start_streaming vd.streaming_state g.streams vd) _
        (start_streaming-StillDrops vd.streaming_state g.streams vd h)
        (dequeue-StillDrops g.dequeued g.requeues)

-- A turn publishes nothing, or one picture in time.
abbrev Moved : ℕ → Frame → List Frame → Frame → Type 0
Moved period last [] now = now ≡ last
Moved period last (f ∷ []) now =
    (now ≡ f) × ((time_of f < time_of last) ⊎ (time_of last + period ≤ time_of f))
Moved period last (f ∷ g ∷ frames) now = ⊥

abbrev Keeps : ℕ → Camera → Turned → Type 0
Keeps period c (turned frames next) = Drops period next.vd × Moved period c.frame frames next.frame
Keeps period c (left frames) = frames ≡ []
Keeps period c (crashed why frames) = frames ≡ []

stamped-Drops :
    (period : ℕ) (want : Bool) (now : Timeval) (vd : VdIn)
    → Drops period vd
    → Drops period (stamped want now vd)
stamped-Drops period true now vd h = h
stamped-Drops period false now vd h = h

in_time :
    (period : ℕ) (vd : VdIn) (last : Frame)
    → Drops period vd
    → too_soon vd last ≡ false
    → (to_milliseconds vd.tmptimestamp.tv_sec vd.tmptimestamp.tv_usec < time_of last)
      ⊎ (time_of last + period ≤ to_milliseconds vd.tmptimestamp.tv_sec vd.tmptimestamp.tv_usec)
unfolding too_soon
in_time period vd last h e =
    let now = to_milliseconds vd.tmptimestamp.tv_sec vd.tmptimestamp.tv_usec in
    let late : ltb (elapsed now (time_of last)) period ≡ false = ground (arith, h.0, h.1) in
    elapsed_cases now (time_of last) period (omega arith) (omega arith) late

-- A picture is published only when its time has come.
publish-Keeps :
    (period : ℕ) (picture : Option (List ℕ)) (vd : VdIn) (c : Camera)
    → Drops period vd
    → too_soon vd c.frame ≡ false
    → Keeps period c (publish picture vd c)
unfolding publish
publish-Keeps period none vd c h e = refl
publish-Keeps period (some bytes) vd c h e = elim (Bool-cases (leb (length bytes) c.capacity)) [
  | inl fits ↦ rw fits (h, (refl, in_time period vd c.frame h e))
  | inr long ↦ rw long refl
]

module _ (jpeg : ℕ → List (List ℕ) → List ℕ) (s : Settings) (period : ℕ) where
  grabbed-Keeps :
      (now : Timeval) (vd : VdIn) (c : Camera)
      → Drops period vd
      → Keeps period c (grabbed jpeg s now vd c)
  unfolding grabbed
  grabbed-Keeps now vd c h =
      let timed = stamped s.want_timestamp now vd in
      let drops = stamped-Drops period s.want_timestamp now vd h in
      elim (Bool-cases (ltb c.every_count (s.every - 1))) [
        | inl pass ↦ rw pass (h, refl)
        | inr take ↦ rw take (elim (Bool-cases (ltb vd.tmpbytesused s.minimum_size)) [
          | inl small ↦ rw small (h, refl)
          | inr large ↦ rw large (elim (Bool-cases (too_soon timed c.frame)) [
            | inl soon ↦ rw soon (drops, refl)
            | inr late ↦ rw late (
                publish-Keeps period (picture_as jpeg timed.format_in s.quality timed) timed c drops
                  late)
          ])
        ])
      ]

  after_grab-Keeps :
      (now : Timeval) (r : Result) (c : Camera)
      → StillDrops period r
      → Keeps period c (after_grab jpeg s now r c)
  unfolding after_grab
  after_grab-Keeps now (ok vd) c h = grabbed-Keeps now vd c h
  after_grab-Keeps now (failed vd) c h = refl
  after_grab-Keeps now trapped c h = refl

  without_events :
      (b : Bool) (event : Option (Option Change)) (c : Camera) (t : Turned)
      → b ≡ false
      → Keeps period c t
      → Keeps period c (if b then handle_event event t else t)
  without_events b event c t e h = rw e h

  selected-Keeps :
      (r : Selected) (c : Camera) → Drops period c.vd → Keeps period c (selected jpeg s r c)
  unfolding selected
  selected-Keeps interrupted c h = (h, refl)
  selected-Keeps broken c h = refl
  selected-Keeps (timed_out d) c h = rw h.2 refl
  selected-Keeps (ready true g now event) c h =
      without_events c.vd.dv_timings event c (after_grab jpeg s now (uvc_grab g c.vd) c) h.2
        (after_grab-Keeps now (uvc_grab g c.vd) c (uvc_grab-StillDrops period g c.vd h))
  selected-Keeps (ready false g now event) c h =
      without_events c.vd.dv_timings event c (turned [] c) h.2 (h, refl)

  turn-Keeps :
      (state : StreamingState) (r : Selected) (c : Camera)
      → Drops period c.vd
      → Keeps period c (turn jpeg state s r c)
  unfolding turn
  turn-Keeps streaming_paused r c h = (h, refl)
  turn-Keeps streaming_on r c h = selected-Keeps r c h
  turn-Keeps streaming_off r c h = selected-Keeps r c h

-- The pictures of a turn come before those of the turns behind it.
pub published-prepend :
    (frames : List Frame) (t : Turned) → published (prepend frames t) ≡ frames ++ published t
published-prepend frames (turned more c) = refl
published-prepend frames (left more) = refl
published-prepend frames (crashed why more) = refl

Spaced-and_then :
    (period : ℕ) (t : Turned) (c : Camera) (next : Camera → Turned)
    → Keeps period c t
    → ((d : Camera) → Drops period d.vd → Spaced period (time_of d.frame) (published (next d)))
    → Spaced period (time_of c.frame) (published (and_then t next))
Spaced-and_then period (left frames) c next h rest = rw h tt
Spaced-and_then period (crashed why frames) c next h rest = rw h tt
Spaced-and_then period (turned [] d) c next h rest =
    subst (Spaced period (time_of c.frame)) (sym (published-prepend [] (next d)))
      (subst (λ f. Spaced period (time_of f) (published (next d))) h.1 (rest d h.0))
Spaced-and_then period (turned (f ∷ []) d) c next h rest =
    subst (Spaced period (time_of c.frame)) (sym (published-prepend (f ∷ []) (next d)))
      (h.1.1, subst (λ g. Spaced period (time_of g) (published (next d))) h.1.0 (rest d h.0))
Spaced-and_then period (turned (f ∷ g ∷ frames) d) c next h rest = absurd h.1

rounds-Spaced :
    (jpeg : ℕ → List (List ℕ) → List ℕ) (s : Settings) (period : ℕ) (rounds : List Selected)
    (c : Camera)
    → Drops period c.vd
    → Spaced period (time_of c.frame) (published (cam_loop jpeg s (map round rounds) c))
unfolding cam_loop happens
rounds-Spaced jpeg s period [] c h = tt
rounds-Spaced jpeg s period (r ∷ rounds) c h =
    Spaced-and_then period (turn jpeg c.vd.streaming_state s r c) c
      (cam_loop jpeg s (map round rounds)) (turn-Keeps jpeg s period c.vd.streaming_state r c h)
      (rounds-Spaced jpeg s period rounds)

-- A camera that drops pictures for their rate publishes none within the period: whatever its turns
-- meet, each published picture is at least `frame_period_time` milliseconds later than the one
-- before it, the first than the one in the global buffer at the start; or the clock went back
-- between the two. The condition: no changes of the resolution, by commands or by events.
pub cam_loop-Spaced :
    (jpeg : ℕ → List (List ℕ) → List ℕ) (s : Settings) (rounds : List Selected) (c : Camera)
    → c.vd.soft_framedrop ≡ true
    → c.vd.dv_timings ≡ false
    → Spaced c.vd.frame_period_time
        (time_of c.frame)
        (published (cam_loop jpeg s (map round rounds) c))
cam_loop-Spaced jpeg s rounds c drops plain =
    rounds-Spaced jpeg s c.vd.frame_period_time rounds c (drops, refl, plain)
