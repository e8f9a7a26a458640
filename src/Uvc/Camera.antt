-- ===== src/Uvc/Camera.antt =====
-- plugins/input_uvc/input_uvc.c: cam_thread, which takes pictures from the camera and publishes
-- them in the global buffer of its input plugin.
pub mod Whole
pub mod Every
pub mod Stale
pub mod Stalled
pub mod Grown
pub mod Spaced
pub mod Raw
pub mod Sample
pub mod Tests
use raspberry_car.Base.{
  ℕ, ◌+◌, ◌-◌, ◌*◌, ◌/◌, ◌%◌, ◌^◌, Bool, true, ◌&&◌, List, [], ◌∷◌, ◌++◌, Option, none, some, ltb,
  leb, if◌then◌else◌, length,
}
use raspberry_car.Http.Clients.{Timeval}
use raspberry_car.Http.Stream.{Frame}
use raspberry_car.Uvc.Pixels.{scanlines}
use raspberry_car.Uvc.Picture.{memcpy_picture}
use raspberry_car.Uvc.Device.{
  FormatIn, mjpeg, raw, StreamingState, streaming_paused, VdIn, Result, ok, failed, trapped, Grab,
  uvc_grab, video_enable,
}
use raspberry_car.Uvc.Device.Setup.{Change, set_resolution}

-- The options of the plugin that the loop reads; `input_init` sets `every` to 1 at least.
pub record Settings : Type 0 where
  pub every : ℕ
  pub minimum_size : ℕ
  pub want_timestamp : Bool
  pub quality : ℕ

-- The thread's device and counter, and the global buffer: the memory that `input_run` gave it, in
-- bytes, and the picture in it.
pub record Camera : Type 0 where
  pub vd : VdIn
  pub every_count : ℕ
  pub capacity : ℕ
  pub frame : Frame

abbrev pub vd_set : VdIn → Camera → Camera
vd_set vd c = record c { vd = vd }

-- `tv_sec * 1000 + tv_usec / 1000`, and the difference of two such numbers, of 64 bits.
abbrev pub to_milliseconds : ℕ → ℕ → ℕ
to_milliseconds sec usec = (sec * 1000 + usec / 1000) % 2 ^ 64

unfoldable pub elapsed : ℕ → ℕ → ℕ
elapsed current last = (current + 2 ^ 64 - last) % 2 ^ 64

-- Whether the picture in the device comes too soon behind the published one.
unfoldable pub too_soon : VdIn → Frame → Bool
unfolding elapsed
too_soon vd last =
    vd.soft_framedrop
    && ltb
        (elapsed (to_milliseconds vd.tmptimestamp.tv_sec vd.tmptimestamp.tv_usec)
          (to_milliseconds last.tv_sec last.tv_usec))
        vd.frame_period_time

-- Where the program leaves its memory, or divides by zero: in an operation of the device, where it
-- reads the picture that it converts or copies, or where it writes these bytes to the global buffer.
pub data Crash : Type 0 where
  in_device in_picture : Crash
  in_global : List ℕ → Crash

-- What a turn of the loop does: it publishes the pictures and goes on, leaves the loop, or crashes.
pub data Turned : Type 0 where
  turned : List Frame → Camera → Turned
  left : List Frame → Turned
  crashed : Crash → List Frame → Turned

-- What `select` says and what the turn then meets: a signal, an error, no picture in time and the
-- change of the resolution that then follows, or a ready device. That may have a picture, and an
-- event: `some (some change)` for a change of the source.
pub data Selected : Type 0 where
  interrupted : Selected
  broken : Selected
  timed_out : Change → Selected
  ready : Bool → Grab → Timeval → Option (Option Change) → Selected

-- What happens, in order, until the program stops: a turn of the loop, or a command that changes
-- the resolution, which another thread sends between two turns.
pub data Event : Type 0 where
  round : Selected → Event
  resolution : Change → ℕ → ℕ → Event

-- A command that fails leaves the device as it is by then.
unfoldable pub commanded : Result → Camera → Turned
commanded (ok vd) c = turned [] (vd_set vd c)
commanded (failed vd) c = turned [] (vd_set vd c)
commanded trapped c = crashed in_device []

-- A turn and what follows it.
abbrev pub prepend : List Frame → Turned → Turned
prepend frames (turned more c) = turned (frames ++ more) c
prepend frames (left more) = left (frames ++ more)
prepend frames (crashed why more) = crashed why (frames ++ more)

abbrev pub and_then : Turned → (Camera → Turned) → Turned
and_then (turned frames c) next = prepend frames (next c)
and_then (left frames) next = left frames
and_then (crashed why frames) next = crashed why frames

-- `softfps` is `none` where it is not above 0.
abbrev pub soft_rate_set : Option ℕ → VdIn → VdIn
soft_rate_set none vd = vd
soft_rate_set (some n) vd = record vd { soft_framedrop = true; frame_period_time = 1000 / n }

-- `input_run` and the start of `cam_thread`: the global buffer is as large as a frame.
unfoldable pub start_camera : VdIn → Camera
start_camera vd = record {
  vd = vd;
  every_count = 0;
  capacity = vd.framesize_in;
  frame = record { buf = []; tv_sec = 0; tv_usec = 0 };
}

abbrev pub stamped : Bool → Timeval → VdIn → VdIn
stamped want now vd = if want then record vd { tmptimestamp = now } else vd

-- A change of the resolution; pictures were published before it.
unfoldable pub after_change : List Frame → Result → Camera → Turned
after_change frames (ok vd) c = turned frames (vd_set vd c)
after_change frames (failed vd) c = left frames
after_change frames trapped c = crashed in_device frames

-- video_handle_event
unfoldable pub handle_event : Option (Option Change) → Turned → Turned
unfolding set_resolution after_change
handle_event (some (some d)) (turned frames c) =
    after_change frames (set_resolution d c.vd.width c.vd.height c.vd) c
handle_event event t = t

-- The picture is written to the global buffer, if it fits.
unfoldable pub publish : Option (List ℕ) → VdIn → Camera → Turned
publish none vd c = crashed in_picture []
publish (some bytes) vd c =
    let f : Frame = record {
      buf = bytes;
      tv_sec = vd.tmptimestamp.tv_sec;
      tv_usec = vd.tmptimestamp.tv_usec;
    } in
    if leb (length bytes) c.capacity
    then turned (f ∷ []) (record c { vd = vd; every_count = 0; frame = f })
    else crashed (in_global bytes) []

-- `jpeg` is the compressor of libjpeg: the picture that it makes of the rows, at a quality.
module _ (jpeg : ℕ → List (List ℕ) → List ℕ) where
  abbrev pub compressed : ℕ → Option (List (List ℕ)) → Option (List ℕ)
  compressed quality none = none
  compressed quality (some rows) = some (jpeg quality rows)

  -- The picture for the global buffer; `none` is a read outside memory.
  unfoldable pub picture_as : FormatIn → ℕ → VdIn → Option (List ℕ)
  picture_as mjpeg quality vd = memcpy_picture vd.tmpbuffer vd.tmpbytesused
  picture_as (raw f) quality vd = compressed quality (scanlines f vd.width vd.height vd.framebuffer)

  -- What follows a picture that was grabbed.
  unfoldable pub grabbed : Settings → Timeval → VdIn → Camera → Turned
  unfolding too_soon picture_as publish
  grabbed s now vd c =
      let timed = stamped s.want_timestamp now vd in
      if ltb c.every_count (s.every - 1)
      then turned [] (record c { vd = vd; every_count = c.every_count + 1 })
      else if ltb vd.tmpbytesused s.minimum_size
      then turned [] (record c { vd = vd; every_count = 0 })
      else if too_soon timed c.frame
      then turned [] (record c { vd = timed; every_count = 0 })
      else publish (picture_as timed.format_in s.quality timed) timed c

  unfoldable pub after_grab : Settings → Timeval → Result → Camera → Turned
  unfolding grabbed
  after_grab s now (ok vd) c = grabbed s now vd c
  after_grab s now (failed vd) c = left []
  after_grab s now trapped c = crashed in_device []

  unfoldable pub selected : Settings → Selected → Camera → Turned
  unfolding uvc_grab after_grab after_change handle_event set_resolution
  selected s interrupted c = turned [] c
  selected s broken c = left []
  selected s (timed_out d) c =
      if c.vd.dv_timings
      then after_change [] (set_resolution d c.vd.width c.vd.height c.vd) c
      else left []
  selected s (ready readable g now event) c =
      let t = if readable then after_grab s now (uvc_grab g c.vd) c else turned [] c in
      if c.vd.dv_timings then handle_event event t else t

  -- A turn waits while the camera is paused.
  unfoldable pub turn : StreamingState → Settings → Selected → Camera → Turned
  unfolding selected
  turn streaming_paused s r c = turned [] c
  turn state s r c = selected s r c

  unfoldable pub happens : Settings → Event → Camera → Turned
  unfolding turn set_resolution commanded
  happens s (round r) c = turn c.vd.streaming_state s r c
  happens s (resolution d width height) c = commanded (set_resolution d width height c.vd) c

  unfoldable pub cam_loop : Settings → List Event → Camera → Turned
  unfolding happens
  cam_loop s [] c = turned [] c
  cam_loop s (e ∷ events) c = and_then (happens s e c) (λ next. cam_loop s events next)

  unfoldable pub enabled : Settings → Result → List Event → Turned
  unfolding cam_loop start_camera
  enabled s (ok vd) events = cam_loop s events (start_camera vd)
  enabled s (failed vd) events = left []
  enabled s trapped events = crashed in_device []

  unfoldable pub cam_thread : Settings → Option ℕ → Bool → VdIn → List Event → Turned
  unfolding enabled video_enable
  cam_thread s softfps streams vd events =
      enabled s (video_enable streams (soft_rate_set softfps vd)) events
