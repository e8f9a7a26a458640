-- ===== src/Uvc/Camera/Whole.antt =====
-- A turn of cam_thread with a whole picture: what the device and the global buffer then hold.
use raspberry_car.Base.{
  ℕ, ◌+◌, ◌-◌, ◌≤◌, ◌<◌, ◌≡◌, refl, ap, ◌∙◌, Bool, true, false, List, [], ◌∷◌, ◌++◌, none, some,
  ltb, leb, if◌then◌else◌, drop, length, arith,
}
use raspberry_car.Http.Clients.{Timeval}
use raspberry_car.Http.Stream.{Frame}
use raspberry_car.Uvc.Picture.Complete.{complete, IsComplete, memcpy_picture-complete}
use raspberry_car.Uvc.Device.{
  mjpeg, streaming_on, VdIn, ok, Dequeued, Grab, headerframe1, overlay, take_buffer,
  start_streaming, dequeue, uvc_grab,
}
use raspberry_car.Uvc.Camera.{
  Settings, Camera, Turned, turned, ready, too_soon, picture_as, publish, grabbed, after_grab,
  handle_event, selected, turn, Event, round, happens,
}

-- A driver that hands out a picture.
abbrev pub grab_of : Dequeued → Grab
grab_of d = record { streams = true; dequeued = some d; requeues = true }

-- The frame that is published for it: the completed picture, with its time.
abbrev pub frame_of : Dequeued → Frame
frame_of d = record {
  buf = complete d.bytes;
  tv_sec = d.timestamp.tv_sec;
  tv_usec = d.timestamp.tv_usec;
}

-- A camera that streams pictures in JPEG, with this memory, size and time, and none dropped for
-- its rate.
abbrev pub streaming_vd : VdIn → List ℕ → ℕ → Timeval → VdIn
streaming_vd vd mem used t = record vd {
  streaming_state = streaming_on;
  format_in = mjpeg;
  soft_framedrop = false;
  tmpbuffer = mem;
  tmpbytesused = used;
  tmptimestamp = t;
}

-- The memory behind a picture that was copied to its front.
abbrev pub behind : Dequeued → List ℕ → List ℕ
behind d mem = d.bytes ++ drop (length d.bytes) mem

pub uvc_grab-streaming :
    (vd : VdIn) (mem : List ℕ) (used : ℕ) (t : Timeval) (d : Dequeued)
    → headerframe1 < length d.bytes
    → length d.bytes ≤ length mem
    → uvc_grab (grab_of d) (streaming_vd vd mem used t)
      ≡ ok (streaming_vd vd (behind d mem) (length d.bytes) d.timestamp)
unfolding uvc_grab start_streaming dequeue take_buffer overlay
uvc_grab-streaming vd mem used t d h k =
    let long : leb (length d.bytes) headerframe1 ≡ false = ground arith in
    let fits : leb (length d.bytes) (length mem) ≡ true = ground arith in rw (long, fits) refl

-- A picture that can be completed, and is neither too small to be taken for one nor too large for the
-- buffer of the device, and with its tables for the global one.
pub record IsWhole (minimum_size framesize capacity : ℕ) (d : Dequeued) : Type 0 where
  pub completable : IsComplete d.bytes
  pub header : headerframe1 < length d.bytes
  pub large : minimum_size ≤ length d.bytes
  pub fits_device : length d.bytes ≤ framesize
  pub fits_global : length (complete d.bytes) ≤ capacity

abbrev pub shot : Dequeued → Timeval → Event
shot d now = round (ready true (grab_of d) now none)

module _ (vd : VdIn) (s : Settings) (capacity : ℕ) where
  abbrev pub camera : List ℕ → ℕ → Timeval → ℕ → Frame → Camera
  camera mem used t n f = record {
    vd = streaming_vd vd mem used t;
    every_count = n;
    capacity = capacity;
    frame = f;
  }

  -- What a turn with a whole picture leads to: it is counted, or published.
  abbrev pub counted : Dequeued → List ℕ → ℕ → Frame → Turned
  counted d mem n f =
      if ltb n (s.every - 1)
      then turned [] (camera (behind d mem) (length d.bytes) d.timestamp (n + 1) f)
      else turned (frame_of d ∷ [])
          (camera (behind d mem) (length d.bytes) d.timestamp 0 (frame_of d))

module _ (jpeg : ℕ → List (List ℕ) → List ℕ) (vd : VdIn) (s : Settings) (capacity : ℕ) where
  grabbed-counted :
      (mem mem' : List ℕ) (used n : ℕ) (t now : Timeval) (f : Frame) (d : Dequeued)
      → s.want_timestamp ≡ false
      → IsWhole s.minimum_size (length mem) capacity d
      → grabbed jpeg s now
          (streaming_vd vd (behind d mem) (length d.bytes) d.timestamp)
          (camera vd s capacity mem' used t n f)
        ≡ counted vd s capacity d mem n f
  unfolding grabbed too_soon picture_as publish
  grabbed-counted mem mem' used n t now f d w h =
      let enough : ltb (length d.bytes) s.minimum_size ≡ false = ground (arith, h.large) in
      let fits : leb (length (complete d.bytes)) capacity ≡ true = ground (arith, h.fits_global) in
      rw (w, enough)
        (rw (memcpy_picture-complete d.bytes (drop (length d.bytes) mem) h.completable)
          (rw fits refl))

  same_on_both : (b : Bool) (t : Turned) → (if b then t else t) ≡ t
  same_on_both true t = refl
  same_on_both false t = refl

  -- A turn in which the driver leaves the picture of `d` in the device.
  pub happens-grabbed :
      (g : Grab) (mem mem' : List ℕ) (used n : ℕ) (t now : Timeval) (f : Frame) (d : Dequeued)
      → s.want_timestamp ≡ false
      → IsWhole s.minimum_size (length mem) capacity d
      → uvc_grab g (streaming_vd vd mem' used t)
        ≡ ok (streaming_vd vd (behind d mem) (length d.bytes) d.timestamp)
      → happens jpeg s (round (ready true g now none)) (camera vd s capacity mem' used t n f)
        ≡ counted vd s capacity d mem n f
  unfolding happens turn selected after_grab handle_event
  happens-grabbed g mem mem' used n t now f d w h e =
      let c = camera vd s capacity mem' used t n f in
      ap
        (λ r.
          if vd.dv_timings
          then handle_event none (after_grab jpeg s now r c)
          else after_grab jpeg s now r c)
        e
      ∙ same_on_both vd.dv_timings
          (grabbed jpeg s now (streaming_vd vd (behind d mem) (length d.bytes) d.timestamp) c)
      ∙ grabbed-counted mem mem' used n t now f d w h

  pub happens-shot :
      (mem : List ℕ) (used n : ℕ) (t now : Timeval) (f : Frame) (d : Dequeued)
      → s.want_timestamp ≡ false
      → IsWhole s.minimum_size (length mem) capacity d
      → happens jpeg s (shot d now) (camera vd s capacity mem used t n f)
        ≡ counted vd s capacity d mem n f
  happens-shot mem used n t now f d w h =
      happens-grabbed (grab_of d) mem mem used n t now f d w h
        (uvc_grab-streaming vd mem used t d h.header h.fits_device)
