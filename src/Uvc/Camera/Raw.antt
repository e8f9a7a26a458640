-- ===== src/Uvc/Camera/Raw.antt =====
-- cam_thread with a camera that gives raw pictures: where its accesses can leave the memory.

use raspberry_car.Base.{
  ℕ, ◌-◌, ◌*◌, ◌%◌, ◌<◌, ◌≡◌, refl, ap, subst, Bool, true, false, List, [], ◌∷◌, Option, some, ltb,
  leb, if◌then◌else◌, map, All, take, length, Bool-cases, inl, inr, arith,
}
use raspberry_car.Http.Clients.{Timeval}
use raspberry_car.Http.Stream.{Frame}
use raspberry_car.Uvc.Pixels.{Format, scanlines}
use raspberry_car.Uvc.Pixels.Rows.{IsByte, Enough, IsRow, scanlines-IsRow}
use raspberry_car.Uvc.Device.{
  FormatIn, raw, StreamingState, streaming_off, streaming_on, streaming_paused, VdIn, Result, ok,
  failed, trapped, uvc_grab,
}
use raspberry_car.Uvc.Device.Setup.{Change}
use raspberry_car.Uvc.Device.Sizes.{SizedAs, IsSized}
use raspberry_car.Uvc.Camera.{
  Settings, Camera, Crash, in_device, in_picture, in_global, Turned, turned, left, crashed, prepend,
  and_then, Selected, interrupted, broken, timed_out, ready, round, too_soon, stamped, compressed,
  picture_as, publish, grabbed, after_grab, handle_event, selected, turn, happens, cam_loop,
}
use raspberry_car.Uvc.Device.Raw.{
  AllBytes, Holds, Safe, uvc_grab-Safe, IsSized-Enough, framebuffer-size,
}

-- The driver hands out bytes.
abbrev pub GivesBytes : Selected → Type 0
GivesBytes (ready readable g now event) = AllBytes g.dequeued
GivesBytes r = Unit {0}

-- A write to the global buffer of what the compressor makes of whole rows, which is too long for it.
abbrev pub TooLong : (List (List ℕ) → List ℕ) → ℕ → ℕ → ℕ → Crash → Type 0
TooLong made width height capacity in_device = ⊥
TooLong made width height capacity in_picture = ⊥
TooLong made width height capacity (in_global bytes) =
    (rows : List (List ℕ)) × (bytes ≡ made rows)
    × (length rows ≡ height)
    × All (IsRow width) rows
    × (capacity < length bytes)

-- The thread goes on or ends; or it crashes where it is allowed to.
abbrev pub Survives : (Crash → Type 0) → Turned → Type 0
Survives P (turned frames c) = Unit {0}
Survives P (left frames) = Unit {0}
Survives P (crashed why frames) = P why

module _ (f : Format) (width height size : ℕ) where
  stamped-Holds :
      (want : Bool) (now : Timeval) (vd : VdIn)
      → Holds f width height size vd
      → Holds f width height size (stamped want now vd)
  stamped-Holds false now vd h = h
  stamped-Holds true now vd h = record {
    format = h.format;
    wide = h.wide;
    high = h.high;
    plain = h.plain;
    framesize = h.framesize;
    room = h.room;
    bytes = h.bytes;
  }

  module _ (jpeg : ℕ → List (List ℕ) → List ℕ) (s : Settings) (capacity : ℕ)
      (enough : (mem : List ℕ) → length mem ≡ size → Enough f (height * width) false mem) where
    abbrev Allowed : Crash → Type 0
    Allowed why = TooLong (jpeg s.quality) width height capacity why

    -- A thread that goes on with a good device, and the global buffer as large as it was.
    abbrev Kept : Turned → Type 0
    Kept (turned frames c) = Holds f width height size c.vd × (c.capacity ≡ capacity)
    Kept (left frames) = Unit {0}
    Kept (crashed why frames) = Allowed why

    -- The picture of a good device.
    picture_as-made :
        (g : FormatIn) (vd : VdIn)
        → g ≡ raw f
        → Holds f width height size vd
        → (rows : List (List ℕ)) × (picture_as jpeg g s.quality vd ≡ some (jpeg s.quality rows))
          × (length rows ≡ height)
          × All (IsRow width) rows
    unfolding picture_as
    picture_as-made g vd e h =
        let (rows, run, size, all) =
          scanlines-IsRow f width height vd.framebuffer (enough vd.framebuffer h.room) h.bytes in
        let read : scanlines f vd.width vd.height vd.framebuffer ≡ some rows =
          rw h.wide (rw h.high run) in
        (rows, rw e (ap (compressed jpeg s.quality) read), size, all)

    publish-Kept :
        (p : Option (List ℕ)) (rows : List (List ℕ)) (vd : VdIn) (c : Camera)
        → p ≡ some (jpeg s.quality rows)
        → length rows ≡ height
        → All (IsRow width) rows
        → Holds f width height size vd
        → c.capacity ≡ capacity
        → Kept (publish p vd c)
    unfolding publish
    publish-Kept p rows vd c made n all h e =
        rw made (elim (Bool-cases (leb (length (jpeg s.quality rows)) c.capacity)) [
          | inl fits ↦ rw fits (h, e)
          | inr long ↦
              let over : capacity < length (jpeg s.quality rows) = ground (arith, e) in
              rw long (rows, refl, n, all, over)
        ])

    grabbed-Kept :
        (now : Timeval) (vd : VdIn) (c : Camera)
        → Holds f width height size vd
        → c.capacity ≡ capacity
        → Kept (grabbed jpeg s now vd c)
    unfolding grabbed
    grabbed-Kept now vd c h e =
        let timed = stamped s.want_timestamp now vd in
        let good = stamped-Holds s.want_timestamp now vd h in
        let (rows, made, size, all) = picture_as-made timed.format_in timed good.format good in
        elim (Bool-cases (ltb c.every_count (s.every - 1))) [
          | inl pass ↦ rw pass (h, e)
          | inr take ↦ rw take (elim (Bool-cases (ltb vd.tmpbytesused s.minimum_size)) [
            | inl short ↦ rw short (h, e)
            | inr large ↦ rw large (elim (Bool-cases (too_soon timed c.frame)) [
              | inl soon ↦ rw soon (good, e)
              | inr late ↦ rw late (publish-Kept _ rows timed c made size all good e)
            ])
          ])
        ]

    after_grab-Kept :
        (now : Timeval) (r : Result) (c : Camera)
        → Safe f width height size r
        → c.capacity ≡ capacity
        → Kept (after_grab jpeg s now r c)
    unfolding after_grab
    after_grab-Kept now (ok vd) c h e = grabbed-Kept now vd c h e
    after_grab-Kept now (failed vd) c h e = tt
    after_grab-Kept now trapped c h e = h

    without_events :
        (b : Bool) (event : Option (Option Change)) (t : Turned)
        → b ≡ false
        → Kept t
        → Kept (if b then handle_event event t else t)
    without_events b event t e h = rw e h

    selected-Kept :
        (r : Selected) (c : Camera)
        → GivesBytes r
        → Holds f width height size c.vd
        → c.capacity ≡ capacity
        → Kept (selected jpeg s r c)
    unfolding selected
    selected-Kept interrupted c k h e = (h, e)
    selected-Kept broken c k h e = tt
    selected-Kept (timed_out d) c k h e = rw h.plain tt
    selected-Kept (ready true g now event) c k h e =
        without_events c.vd.dv_timings event (after_grab jpeg s now (uvc_grab g c.vd) c) h.plain
          (after_grab-Kept now (uvc_grab g c.vd) c (uvc_grab-Safe f width height size g c.vd k h) e)
    selected-Kept (ready false g now event) c k h e =
        without_events c.vd.dv_timings event (turned [] c) h.plain (h, e)

    turn-Kept :
        (state : StreamingState) (r : Selected) (c : Camera)
        → GivesBytes r
        → Holds f width height size c.vd
        → c.capacity ≡ capacity
        → Kept (turn jpeg state s r c)
    unfolding turn
    turn-Kept streaming_paused r c k h e = (h, e)
    turn-Kept streaming_on r c k h e = selected-Kept r c k h e
    turn-Kept streaming_off r c k h e = selected-Kept r c k h e

    and_then-Survives :
        (t : Turned) (next : Camera → Turned)
        → Kept t
        → ((c : Camera)
            → Holds f width height size c.vd
            → c.capacity ≡ capacity
            → Survives Allowed (next c))
        → Survives Allowed (and_then t next)
    and_then-Survives (left frames) next h rest = tt
    and_then-Survives (crashed why frames) next h rest = h
    and_then-Survives (turned frames c) next h rest =
        prepend-Survives frames (next c) (rest c h.0 h.1)
      where
        prepend-Survives :
            (frames : List Frame) (t : Turned)
            → Survives Allowed t
            → Survives Allowed (prepend frames t)
        prepend-Survives frames (turned more c) k = tt
        prepend-Survives frames (left more) k = tt
        prepend-Survives frames (crashed why more) k = k

    rounds-Survives :
        (rounds : List Selected) (c : Camera)
        → All GivesBytes rounds
        → Holds f width height size c.vd
        → c.capacity ≡ capacity
        → Survives Allowed (cam_loop jpeg s (map round rounds) c)
    unfolding cam_loop happens
    rounds-Survives [] c k h e = tt
    rounds-Survives (r ∷ rounds) c k h e =
        and_then-Survives (turn jpeg c.vd.streaming_state s r c)
          (cam_loop jpeg s (map round rounds)) (turn-Kept c.vd.streaming_state r c k.0 h e)
          (λ d. rounds-Survives rounds d k.1)

-- With a camera with raw pictures there is one place only where the thread may leave its memory,
-- whatever its turns meet, and however long or short the driver's buffers of bytes are: the write to
-- the global buffer, and there only where the compressor makes of the rows of a picture, whole and
-- of bytes, more than that buffer holds. Neither the copy of the driver's buffer nor the conversion
-- of the pixels leaves it. The conditions: buffers of the size that the format, the width and the
-- height ask for, a frame buffer of bytes, an even number of pixels, no changes of the resolution,
-- by commands or by events.
pub cam_loop-Survives :
    (jpeg : ℕ → List (List ℕ) → List ℕ) (s : Settings) (f : Format) (rounds : List Selected)
    (c : Camera)
    → c.vd.format_in ≡ raw f
    → IsSized c.vd
    → (c.vd.width * c.vd.height) % 2 ≡ 0
    → All IsByte c.vd.framebuffer
    → c.vd.dv_timings ≡ false
    → All GivesBytes rounds
    → Survives
        (TooLong (jpeg s.quality) c.vd.width c.vd.height c.capacity)
        (cam_loop jpeg s (map round rounds) c)
cam_loop-Survives jpeg s f rounds c format sized even bytes plain gives =
    let vd = c.vd in
    let sizes =
      subst (λ g. SizedAs g (vd.width * vd.height) vd.framesize_in vd.tmpbuffer vd.framebuffer)
        format sized in
    let enough : (mem : List ℕ)
        → length mem ≡ vd.framesize_in
        → Enough f (vd.height * vd.width) false mem =
      λ mem.
        IsSized-Enough f vd.width vd.height vd.framesize_in vd.tmpbuffer vd.framebuffer mem sizes
          even in
    let good : Holds f vd.width vd.height vd.framesize_in vd = record {
      format = format;
      wide = refl;
      high = refl;
      plain = plain;
      framesize = refl;
      room =
          framebuffer-size f vd.width vd.height vd.framesize_in vd.tmpbuffer vd.framebuffer sizes;
      bytes = bytes;
    } in
    rounds-Survives f vd.width vd.height vd.framesize_in jpeg s c.capacity enough rounds c gives
      good refl
