-- ===== src/Uvc/Camera/Stale.antt =====
-- cam_thread: empty buffers of the driver.
use raspberry_car.Base.{
  ℕ, suc, ◌-◌, ◌*◌, ◌≤◌, ◌≡◌, refl, ap, ◌∙◌, subst, sym, true, false, List, [], ◌∷◌, none, ltb, leb,
  map, All, length, replicate, arith,
}
use raspberry_car.Http.Clients.{Timeval}
use raspberry_car.Http.Stream.{Frame}
use raspberry_car.Uvc.Device.{
  mjpeg, VdIn, ok, Dequeued, headerframe1, take_buffer, start_streaming, dequeue, uvc_grab,
  video_enable,
}
use raspberry_car.Uvc.Device.Sizes.{SizedAs, IsSized}
use raspberry_car.Uvc.Camera.{Settings, Camera, turned, prepend, cam_loop, enabled, cam_thread}
use raspberry_car.Uvc.Camera.Whole.{
  grab_of, frame_of, streaming_vd, behind, IsWhole, camera, counted, happens-grabbed, happens-shot,
}
use raspberry_car.Uvc.Camera.Every.{no_frame, Shots, shot_of, started}

-- A buffer with no more than a header.
abbrev pub IsEmpty : Dequeued × Timeval → Type 0
IsEmpty (d, now) = length d.bytes ≤ headerframe1

uvc_grab-empty :
    (vd : VdIn) (mem : List ℕ) (used : ℕ) (t : Timeval) (d : Dequeued)
    → length d.bytes ≤ headerframe1
    → uvc_grab (grab_of d) (streaming_vd vd mem used t) ≡ ok (streaming_vd vd mem used t)
unfolding uvc_grab start_streaming dequeue take_buffer
uvc_grab-empty vd mem used t d h =
    let short : leb (length d.bytes) headerframe1 ≡ true = ground arith in rw short refl

module _ (jpeg : ℕ → List (List ℕ) → List ℕ) (vd : VdIn) (s : Settings) (capacity : ℕ) where
  -- Under `every` 1 each turn publishes.
  counted-first :
      (d : Dequeued) (mem : List ℕ) (f : Frame)
      → s.every ≡ 1
      → counted vd s capacity d mem 0 f
        ≡ turned
            (frame_of d ∷ [])
            (camera vd s capacity (behind d mem) (length d.bytes) d.timestamp 0 (frame_of d))
  counted-first d mem f e = let first : ltb 0 (s.every - 1) ≡ false = ground arith in rw first refl

  cam_loop-empties :
      (empties : Shots) (d : Dequeued) (mem : List ℕ) (f : Frame)
      → s.want_timestamp ≡ false
      → s.every ≡ 1
      → IsWhole s.minimum_size (length mem) capacity d
      → All IsEmpty empties
      → (last : Camera) × (cam_loop jpeg s
            (map shot_of empties)
            (camera vd s capacity (behind d mem) (length d.bytes) d.timestamp 0 f)
          ≡ turned (replicate (length empties) (frame_of d)) last)
  unfolding cam_loop
  cam_loop-empties [] d mem f w e h empty =
      (camera vd s capacity (behind d mem) (length d.bytes) d.timestamp 0 f, refl)
  cam_loop-empties ((x, now) ∷ empties) d mem f w e h empty =
      let rest = cam_loop-empties empties d mem (frame_of d) w e h empty.1 in
      let step =
        happens-grabbed jpeg vd s capacity (grab_of x) mem (behind d mem) (length d.bytes) 0
          d.timestamp now f d w h
          (uvc_grab-empty vd (behind d mem) (length d.bytes) d.timestamp x empty.0)
        ∙ counted-first d mem f e in
      (rest.0, rw step (ap (prepend (frame_of d ∷ [])) rest.1))

-- An empty buffer, of up to 0xaf bytes, is said to be ignored; under `every` 1 it makes the thread
-- publish once more the picture before it, with that picture's time. So a whole picture that `n`
-- empty buffers follow is published `n + 1` times. The conditions are those of a camera in JPEG mode
-- with buffers sized for it, no frames dropped for their rate and no time of the plugin's own.
pub cam_thread-stale :
    (jpeg : ℕ → List (List ℕ) → List ℕ) (vd : VdIn) (s : Settings) (d : Dequeued) (now : Timeval)
    (empties : Shots)
    → vd.format_in ≡ mjpeg
    → vd.soft_framedrop ≡ false
    → IsSized vd
    → s.want_timestamp ≡ false
    → s.every ≡ 1
    → IsWhole s.minimum_size vd.framesize_in vd.framesize_in d
    → All IsEmpty empties
    → (last : Camera) × (cam_thread jpeg s none true vd (map shot_of ((d, now) ∷ empties))
        ≡ turned (replicate (suc (length empties)) (frame_of d)) last)
unfolding cam_thread enabled video_enable cam_loop
cam_thread-stale jpeg vd s d now empties f h sized w e whole empty =
    let mem = vd.tmpbuffer in
    let size : length mem ≡ vd.framesize_in =
      (subst (λ m. SizedAs m (vd.width * vd.height) vd.framesize_in mem vd.framebuffer) f
        sized).1 in
    let fits = subst (λ n. IsWhole s.minimum_size n vd.framesize_in d) (sym size) whole in
    let rest =
      cam_loop-empties jpeg vd s vd.framesize_in empties d mem (frame_of d) w e fits empty in
    let step =
      happens-shot jpeg vd s vd.framesize_in mem vd.tmpbytesused 0 vd.tmptimestamp now no_frame d w
        fits
      ∙ counted-first jpeg vd s vd.framesize_in d mem no_frame e in
    (
      rest.0,
      ap (cam_loop jpeg s (map shot_of ((d, now) ∷ empties)))
            (started jpeg vd s vd.framesize_in f h)
          ∙ rw step (ap (prepend (frame_of d ∷ [])) rest.1),
    )
