-- ===== src/Uvc/Device/Raw.antt =====
-- v4l2uvc.c: what keeps a device whole that gives raw pictures, of bytes.
use native.Mathlib.Nat.{mul_comm}
use raspberry_car.Base.{
  ℕ, zero, suc, ◌*◌, ◌%◌, ◌≡◌, subst, Bool, true, false, List, [], ◌∷◌, ◌++◌, Option, none, some,
  leb, All, take, drop, length, length-append, length-take, length-drop, arith,
}
use raspberry_car.Uvc.Pixels.{Format, yuyv, rgb24, rgb565, uyvy, other}
use raspberry_car.Uvc.Pixels.Rows.{IsByte, Enough}
use raspberry_car.Uvc.Device.{
  FormatIn, raw, StreamingState, streaming_off, streaming_on, streaming_paused, VdIn, Result, ok,
  failed, trapped, ◌>>=◌, guard, Dequeued, Grab, stored, overlay, frame_taken, take_buffer,
  video_enable, start_streaming, dequeue, uvc_grab,
}
use raspberry_car.Uvc.Device.Sizes.{SizedAs}

abbrev pub AllBytes : Option Dequeued → Type 0
AllBytes none = Unit {0}
AllBytes (some d) = All IsByte d.bytes

All-append : (xs ys : List ℕ) → All IsByte xs → All IsByte ys → All IsByte (xs ++ ys)
All-append [] ys h k = k
All-append (x ∷ xs) ys h k = (h.0, All-append xs ys h.1 k)

All-take : (n : ℕ) (xs : List ℕ) → All IsByte xs → All IsByte (take n xs)
All-take zero xs h = tt
All-take (suc n) [] h = tt
All-take (suc n) (x ∷ xs) h = (h.0, All-take n xs h.1)

All-drop : (n : ℕ) (xs : List ℕ) → All IsByte xs → All IsByte (drop n xs)
All-drop zero xs h = h
All-drop (suc n) [] h = tt
All-drop (suc n) (x ∷ xs) h = All-drop n xs h.1

module _ (f : Format) (width height size : ℕ) where
  -- A device with pictures of this format and size, and a buffer of bytes for them.
  pub record Holds (vd : VdIn) : Type 0 where
    pub format : vd.format_in ≡ raw f
    pub wide : vd.width ≡ width
    pub high : vd.height ≡ height
    pub plain : vd.dv_timings ≡ false
    pub framesize : vd.framesize_in ≡ size
    pub room : length vd.framebuffer ≡ size
    pub bytes : All IsByte vd.framebuffer

  abbrev pub Safe : Result → Type 0
  Safe (ok vd) = Holds vd
  Safe (failed vd) = Unit {0}
  Safe trapped = ⊥

  Safe-bind :
      (r : Result) (g : VdIn → Result)
      → Safe r
      → ((vd : VdIn) → Holds vd → Safe (g vd))
      → Safe (r >>= g)
  Safe-bind (ok vd) g h step = step vd h
  Safe-bind (failed vd) g h step = tt
  Safe-bind trapped g h step = h

  guard-Safe : (b : Bool) (vd : VdIn) → Holds vd → Safe (guard b vd)
  guard-Safe true vd h = h
  guard-Safe false vd h = tt

  -- The copy of a picture, of which no more than the frame size is taken.
  stored-Safe :
      (d : Dequeued) (vd : VdIn)
      → All IsByte d.bytes
      → Holds vd
      → Safe (stored (overlay vd.framebuffer (take vd.framesize_in d.bytes)) (frame_taken d vd))
  unfolding overlay
  stored-Safe d vd k h =
      let front = take vd.framesize_in d.bytes in
      let back = drop (length front) vd.framebuffer in
      let short = length-take vd.framesize_in d.bytes in
      let fits : leb (length front) (length vd.framebuffer) ≡ true =
        ground (arith, short, h.room, h.framesize) in
      rw fits record {
        format = h.format;
        wide = h.wide;
        high = h.high;
        plain = h.plain;
        framesize = h.framesize;
        room = omega (
          arith,
          length-append front back,
          length-drop (length front) vd.framebuffer,
          short,
          h.room,
          h.framesize,
        );
        bytes =
            All-append front back (All-take vd.framesize_in d.bytes k)
              (All-drop (length front) vd.framebuffer h.bytes);
      }

  take_buffer-Safe :
      (g : Format) (d : Dequeued) (vd : VdIn)
      → All IsByte d.bytes
      → Holds vd
      → Safe (take_buffer (raw g) d vd)
  unfolding take_buffer
  take_buffer-Safe other d vd k h = tt
  take_buffer-Safe yuyv d vd k h = stored-Safe d vd k h
  take_buffer-Safe uyvy d vd k h = stored-Safe d vd k h
  take_buffer-Safe rgb24 d vd k h = stored-Safe d vd k h
  take_buffer-Safe rgb565 d vd k h = stored-Safe d vd k h

  take_raw-Safe :
      (g : FormatIn) (d : Dequeued) (vd : VdIn)
      → g ≡ raw f
      → All IsByte d.bytes
      → Holds vd
      → Safe (take_buffer g d vd)
  take_raw-Safe g d vd e k h = rw e (take_buffer-Safe f d vd k h)

  dequeue-Safe :
      (d : Option Dequeued) (requeues : Bool) (vd : VdIn)
      → AllBytes d
      → Holds vd
      → Safe (dequeue d requeues vd)
  unfolding dequeue
  dequeue-Safe none requeues vd k h = tt
  dequeue-Safe (some d) requeues vd k h =
      Safe-bind (take_buffer vd.format_in d vd) (guard requeues)
        (take_raw-Safe vd.format_in d vd h.format k h) (guard-Safe requeues)

  start_streaming-Safe :
      (s : StreamingState) (streams : Bool) (vd : VdIn)
      → Holds vd
      → Safe (start_streaming s streams vd)
  unfolding start_streaming video_enable
  start_streaming-Safe streaming_off true vd h = record {
    format = h.format;
    wide = h.wide;
    high = h.high;
    plain = h.plain;
    framesize = h.framesize;
    room = h.room;
    bytes = h.bytes;
  }
  start_streaming-Safe streaming_off false vd h = tt
  start_streaming-Safe streaming_on streams vd h = h
  start_streaming-Safe streaming_paused streams vd h = h

  pub uvc_grab-Safe : (g : Grab) (vd : VdIn) → AllBytes g.dequeued → Holds vd → Safe (uvc_grab g vd)
  unfolding uvc_grab
  uvc_grab-Safe g vd k h =
      Safe-bind (start_streaming vd.streaming_state g.streams vd) _
        (start_streaming-Safe vd.streaming_state g.streams vd h)
        (λ on. dequeue-Safe g.dequeued g.requeues on k)

-- A buffer of the size that the format asks for, with an even number of pixels, is enough.
pub IsSized-Enough :
    (f : Format) (width height size : ℕ) (tmp frame mem : List ℕ)
    → SizedAs (raw f) (width * height) size tmp frame
    → (width * height) % 2 ≡ 0
    → length mem ≡ size
    → Enough f (height * width) false mem
IsSized-Enough yuyv width height size tmp frame mem h even e = (
  omega (arith, h.0, e, mul_comm width height),
  subst (λ n. n % 2 ≡ 0) (mul_comm width height) even,
)
IsSized-Enough uyvy width height size tmp frame mem h even e = (
  omega (arith, h.0, e, mul_comm width height),
  subst (λ n. n % 2 ≡ 0) (mul_comm width height) even,
)
IsSized-Enough rgb24 width height size tmp frame mem h even e =
    omega (arith, h.0, e, mul_comm width height)
IsSized-Enough rgb565 width height size tmp frame mem h even e =
    omega (arith, h.0, e, mul_comm width height)
IsSized-Enough other width height size tmp frame mem h even e = absurd h

pub framebuffer-size :
    (f : Format) (width height size : ℕ) (tmp frame : List ℕ)
    → SizedAs (raw f) (width * height) size tmp frame
    → length frame ≡ size
framebuffer-size yuyv width height size tmp frame h = h.1
framebuffer-size uyvy width height size tmp frame h = h.1
framebuffer-size rgb24 width height size tmp frame h = h.1
framebuffer-size rgb565 width height size tmp frame h = h.1
framebuffer-size other width height size tmp frame h = absurd h
