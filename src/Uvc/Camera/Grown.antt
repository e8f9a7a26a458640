-- ===== src/Uvc/Camera/Grown.antt =====
-- cam_thread after a change to a larger resolution.
use raspberry_car.Base.{
  ℕ, ◌-◌, ◌*◌, ◌≤◌, ◌<◌, ◌≡◌, refl, ap, ◌∙◌, subst, sym, Bool, true, false, List, [], ◌∷◌, none,
  ltb, leb, if◌then◌else◌, drop, length, arith,
}
use raspberry_car.Http.Clients.{Timeval}
use raspberry_car.Http.Stream.{Frame}
use raspberry_car.Uvc.Picture.Complete.{complete, IsComplete, memcpy_picture-complete}
use raspberry_car.Uvc.Device.{mjpeg, streaming_on, VdIn, ok, Dequeued, headerframe1}
use raspberry_car.Uvc.Device.Setup.{Change, set_resolution}
use raspberry_car.Uvc.Device.Sizes.{SizedAs, Changed, set_resolution-Changed}
use raspberry_car.Uvc.Camera.{
  Settings, Camera, vd_set, Crash, in_global, Turned, crashed, prepend, and_then, too_soon,
  picture_as, publish, grabbed, after_grab, handle_event, selected, turn, Event, resolution,
  commanded, happens, cam_loop,
}
use raspberry_car.Uvc.Camera.Whole.{streaming_vd, behind, uvc_grab-streaming, shot, camera}

-- A picture that fits in the device, but with its tables not in the global buffer.
pub record TooLarge (minimum_size framesize capacity : ℕ) (d : Dequeued) : Type 0 where
  pub completable : IsComplete d.bytes
  pub header : headerframe1 < length d.bytes
  pub large : minimum_size ≤ length d.bytes
  pub fits_device : length d.bytes ≤ framesize
  pub exceeds_global : capacity < length (complete d.bytes)

module _ (jpeg : ℕ → List (List ℕ) → List ℕ) (vd : VdIn) (s : Settings) (capacity : ℕ) where
  grabbed-crashed :
      (mem mem' : List ℕ) (used n : ℕ) (t now : Timeval) (f : Frame) (d : Dequeued)
      → s.want_timestamp ≡ false
      → s.every ≡ 1
      → TooLarge s.minimum_size (length mem) capacity d
      → grabbed jpeg s now
          (streaming_vd vd (behind d mem) (length d.bytes) d.timestamp)
          (camera vd s capacity mem' used t n f)
        ≡ crashed (in_global (complete d.bytes)) []
  unfolding grabbed too_soon picture_as publish
  grabbed-crashed mem mem' used n t now f d w e h =
      let first : ltb n (s.every - 1) ≡ false = ground arith in
      let enough : ltb (length d.bytes) s.minimum_size ≡ false = ground (arith, h.large) in
      let long : leb (length (complete d.bytes)) capacity ≡ false =
        ground (arith, h.exceeds_global) in
      rw (first, w, enough)
        (rw (memcpy_picture-complete d.bytes (drop (length d.bytes) mem) h.completable)
          (rw long refl))

  handled : Crash → Bool → Turned
  handled why b = if b then handle_event none (crashed why []) else crashed why []

  handled-crashed : (why : Crash) (b : Bool) → handled why b ≡ crashed why []
  unfolding handled handle_event
  handled-crashed why true = refl
  handled-crashed why false = refl

  happens-crashed :
      (mem : List ℕ) (used n : ℕ) (t now : Timeval) (f : Frame) (d : Dequeued)
      → s.want_timestamp ≡ false
      → s.every ≡ 1
      → TooLarge s.minimum_size (length mem) capacity d
      → happens jpeg s (shot d now) (camera vd s capacity mem used t n f)
        ≡ crashed (in_global (complete d.bytes)) []
  unfolding happens turn selected after_grab handled
  happens-crashed mem used n t now f d w e h =
      let c = camera vd s capacity mem used t n f in
      ap
        (λ r.
          if vd.dv_timings
          then handle_event none (after_grab jpeg s now r c)
          else after_grab jpeg s now r c)
        (uvc_grab-streaming vd mem used t d h.header h.fits_device)
      ∙ ap (λ r. if vd.dv_timings then handle_event none r else r)
          (grabbed-crashed mem mem used n t now f d w e h)
      ∙ handled-crashed (in_global (complete d.bytes)) vd.dv_timings

-- The camera behind a change, in the words of these lemmas.
resized :
    (vd : VdIn) (s : Settings) (c : Camera)
    → vd.streaming_state ≡ streaming_on
    → vd.format_in ≡ mjpeg
    → vd.soft_framedrop ≡ false
    → vd_set vd c
      ≡ camera vd s c.capacity vd.tmpbuffer vd.tmpbytesused vd.tmptimestamp c.every_count c.frame
resized vd s c on f h = λ i. record {
  vd = record vd { streaming_state = on i; format_in = f i; soft_framedrop = h i };
  every_count = c.every_count;
  capacity = c.capacity;
  frame = c.frame;
}

-- A change of the resolution leaves the global buffer as long as it was. Behind one that succeeds
-- in JPEG mode, a picture that fits in the new buffers of the device, but is longer, with its
-- tables, than the global buffer, passes through the device without a fault, and is then written
-- whole, with its tables, to the global buffer and so past its end. The conditions: the picture can
-- be completed, is larger than a header and the minimum size; each picture is published, none
-- dropped for its rate, with its time.
pub cam_loop-grown :
    (jpeg : ℕ → List (List ℕ) → List ℕ) (s : Settings) (change : Change) (width height : ℕ)
    (vd : VdIn) (c : Camera) (d : Dequeued) (now : Timeval) (events : List Event)
    → set_resolution change width height c.vd ≡ ok vd
    → vd.format_in ≡ mjpeg
    → vd.soft_framedrop ≡ false
    → s.want_timestamp ≡ false
    → s.every ≡ 1
    → TooLarge s.minimum_size vd.framesize_in c.capacity d
    → cam_loop jpeg s (resolution change width height ∷ shot d now ∷ events) c
      ≡ crashed (in_global (complete d.bytes)) []
unfolding cam_loop commanded
cam_loop-grown jpeg s change width height vd c d now events e f h w once large =
    let set_up : Changed c.vd.fps (ok vd) =
      subst (Changed c.vd.fps) e (set_resolution-Changed change width height c.vd) in
    let size : length vd.tmpbuffer ≡ vd.framesize_in =
      (subst (λ m. SizedAs m (vd.width * vd.height) vd.framesize_in vd.tmpbuffer vd.framebuffer) f
        set_up.1).1 in
    let stop =
      ap (happens jpeg s (shot d now)) (resized vd s c set_up.0 f h)
      ∙ happens-crashed jpeg vd s c.capacity vd.tmpbuffer vd.tmpbytesused c.every_count
          vd.tmptimestamp now c.frame d w once
          (subst (λ n. TooLarge s.minimum_size n c.capacity d) (sym size) large) in
    ap (λ r. and_then (commanded r c) (cam_loop jpeg s (shot d now ∷ events))) e
    ∙ ap (λ t. prepend [] (and_then t (cam_loop jpeg s events))) stop
