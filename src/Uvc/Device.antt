-- ===== src/Uvc/Device.antt =====
-- v4l2uvc.c and v4l2uvc.h: the state of a device, its buffers, and how it is set up. What the
-- driver answers is an argument of each operation.
pub mod Setup
pub mod Sizes
pub mod Raw
use raspberry_car.Base.{
  ℕ, ◌+◌, ◌-◌, ◌*◌, Bool, true, false, List, [], ◌∷◌, ◌++◌, Option, none, some, leb, if◌then◌else◌,
  take, drop, length, replicate,
}
use raspberry_car.Base.Int.{ℤ}
use raspberry_car.Http.Clients.{Timeval}
use raspberry_car.Uvc.Pixels.{Format, yuyv, rgb24, rgb565, uyvy, other}

-- `formatIn`: V4L2_PIX_FMT_MJPEG and V4L2_PIX_FMT_JPEG, which are treated alike, or another.
pub data FormatIn : Type 0 where
  mjpeg : FormatIn
  raw : Format → FormatIn

pub data StreamingState : Type 0 where
  streaming_off streaming_on streaming_paused : StreamingState

-- `struct vdIn`. The two buffers are the memory that they point to, `[]` for NULL; `vstd` says
-- whether a standard is set.
pub record VdIn : Type 0 where
  pub streaming_state : StreamingState
  pub grabmethod : Bool
  pub width : ℕ
  pub height : ℕ
  pub fps : ℤ
  pub format_in : FormatIn
  pub vstd : Bool
  pub dv_timings : Bool
  pub framesize_in : ℕ
  pub tmpbuffer : List ℕ
  pub framebuffer : List ℕ
  pub tmpbytesused : ℕ
  pub tmptimestamp : Timeval
  pub frame_period_time : ℕ
  pub soft_framedrop : Bool

-- The end of an operation: it returns 0 or a negative number, or the program does what C leaves
-- undefined (a write outside memory, a division by zero).
pub data Result : Type 0 where
  ok : VdIn → Result
  failed : VdIn → Result
  trapped : Result

infixl 5 ◌>>=◌
abbrev pub ◌>>=◌ : Result → (VdIn → Result) → Result
ok vd >>= f = f vd
failed vd >>= f = failed vd
trapped >>= f = trapped

-- A call on which the operation gives up if it fails.
abbrev pub guard : Bool → VdIn → Result
guard b vd = if b then ok vd else failed vd

abbrev pub state_set : StreamingState → VdIn → VdIn
state_set s vd = record vd { streaming_state = s }

unfoldable pub video_enable : Bool → VdIn → Result
video_enable streams vd = if streams then ok (state_set streaming_on vd) else failed vd

unfoldable pub video_disable : Bool → StreamingState → VdIn → Result
video_disable stops disabled_state vd =
    if stops then ok (state_set disabled_state vd) else failed vd

abbrev pub buffers_set : ℕ → List ℕ → List ℕ → VdIn → VdIn
buffers_set size tmp frame vd = record vd {
  framesize_in = size;
  tmpbuffer = tmp;
  framebuffer = frame;
}

unfoldable pub free_framebuffer : VdIn → VdIn
free_framebuffer vd = record vd { tmpbuffer = []; framebuffer = [] }

-- A raw picture of `size` bytes.
unfoldable pub init_raw : Bool → ℕ → VdIn → Result
init_raw frame size vd =
    if frame
    then ok (buffers_set size vd.tmpbuffer (replicate size 0) vd)
    else failed (buffers_set size vd.tmpbuffer [] vd)

-- `tmp` and `frame` say whether `calloc` gives memory for the two buffers.
unfoldable pub init_framebuffer_as : FormatIn → Bool → Bool → VdIn → Result
unfolding init_raw
init_framebuffer_as mjpeg tmp frame vd =
    let size = vd.width * vd.height * 2 in
    if tmp
    then if frame
      then ok
          (buffers_set size (replicate size 0) (replicate (vd.width * (vd.height + 8) * 2) 0) vd)
      else failed (buffers_set size (replicate size 0) [] vd)
    else failed (buffers_set size [] vd.framebuffer vd)
init_framebuffer_as (raw rgb24) tmp frame vd = init_raw frame (vd.width * vd.height * 3) vd
init_framebuffer_as (raw rgb565) tmp frame vd = init_raw frame (vd.width * vd.height * 2) vd
init_framebuffer_as (raw yuyv) tmp frame vd = init_raw frame (vd.width * vd.height * 2) vd
init_framebuffer_as (raw uyvy) tmp frame vd = init_raw frame (vd.width * vd.height * 2) vd
init_framebuffer_as (raw other) tmp frame vd =
    failed (buffers_set (vd.width * vd.height * 2) vd.tmpbuffer vd.framebuffer vd)

unfoldable pub init_framebuffer : Bool → Bool → VdIn → Result
unfolding init_framebuffer_as
init_framebuffer tmp frame vd = init_framebuffer_as vd.format_in tmp frame vd

-- `memcpy` to the front of a buffer; `none` is a write behind its end.
unfoldable pub overlay : List ℕ → List ℕ → Option (List ℕ)
overlay mem bytes =
    if leb (length bytes) (length mem) then some (bytes ++ drop (length bytes) mem) else none

-- A filled buffer of the driver: its first `bytesused` bytes, and its time.
pub record Dequeued : Type 0 where
  pub bytes : List ℕ
  pub timestamp : Timeval

-- What the driver answers to VIDIOC_STREAMON, VIDIOC_DQBUF and VIDIOC_QBUF.
pub record Grab : Type 0 where
  pub streams : Bool
  pub dequeued : Option Dequeued
  pub requeues : Bool

abbrev pub headerframe1 : ℕ
headerframe1 = 0xaf

-- The picture in `tmpbuffer` or in `framebuffer`, with its size and its time.
abbrev pub tmp_taken : Dequeued → VdIn → List ℕ → VdIn
tmp_taken d vd mem = record vd {
  tmpbuffer = mem;
  tmpbytesused = length d.bytes;
  tmptimestamp = d.timestamp;
}

abbrev pub frame_taken : Dequeued → VdIn → List ℕ → VdIn
frame_taken d vd mem = record vd {
  framebuffer = mem;
  tmpbytesused = length d.bytes;
  tmptimestamp = d.timestamp;
}

abbrev pub stored : Option (List ℕ) → (List ℕ → VdIn) → Result
stored none f = trapped
stored (some mem) f = ok (f mem)

-- The copy of a buffer, by the format.
unfoldable pub take_buffer : FormatIn → Dequeued → VdIn → Result
unfolding overlay
take_buffer mjpeg d vd =
    if leb (length d.bytes) headerframe1
    then ok vd
    else stored (overlay vd.tmpbuffer d.bytes) (tmp_taken d vd)
take_buffer (raw other) d vd = failed vd
take_buffer (raw f) d vd =
    stored (overlay vd.framebuffer (take vd.framesize_in d.bytes)) (frame_taken d vd)

unfoldable pub start_streaming : StreamingState → Bool → VdIn → Result
unfolding video_enable
start_streaming streaming_off streams vd = video_enable streams vd
start_streaming s streams vd = ok vd

unfoldable pub dequeue : Option Dequeued → Bool → VdIn → Result
unfolding take_buffer
dequeue none requeues vd = failed vd
dequeue (some d) requeues vd = take_buffer vd.format_in d vd >>= guard requeues

unfoldable pub uvc_grab : Grab → VdIn → Result
unfolding start_streaming dequeue
uvc_grab g vd =
    start_streaming vd.streaming_state g.streams vd >>= λ on. dequeue g.dequeued g.requeues on
