-- ===== src/Uvc/Camera/Tests.antt =====
-- Runs of the camera's thread.
use raspberry_car.Base.{
  inl, ℕ, ◌+◌, ◌-◌, ◌*◌, ◌≡◌, refl, true, false, List, [], ◌∷◌, none, map, replicate, get_elem?,
  take, arith,
}
use raspberry_car.Base.Int.{negsuc}
use raspberry_car.Http.Stream.{Frame}
use raspberry_car.Uvc.Picture.{is_huffman}
use raspberry_car.Uvc.Picture.Complete.{complete}
use raspberry_car.Uvc.Pixels.{rgb24}
use raspberry_car.Uvc.Device.{raw, streaming_on, streaming_paused, VdIn, state_set}
use raspberry_car.Uvc.Device.Setup.{Change, set_resolution}
use raspberry_car.Uvc.Device.Sizes.{Changed, set_resolution-Changed}
use raspberry_car.Uvc.Camera.{
  Camera, turned, in_global, crashed, Selected, interrupted, ready, round, resolution, start_camera,
  cam_loop, cam_thread,
}
use raspberry_car.Uvc.Camera.Whole.{frame_of, grab_of, shot}
use raspberry_car.Uvc.Camera.Sample.{
  at, small_vd, jpeg, every_second, each_one, picture, whole, driver, accepted,
}
use raspberry_car.Uvc.Camera.Every.{Shots, shot_of, taken_of, Plain, cam_thread-every}
use raspberry_car.Uvc.Camera.Stale.{cam_thread-stale}
use raspberry_car.Uvc.Camera.Stalled.{cam_loop-stalled}
use raspberry_car.Uvc.Camera.Grown.{TooLarge, cam_loop-grown}
use raspberry_car.Uvc.Camera.Raw.{TooLong, Survives, cam_loop-Survives}
use raspberry_car.Uvc.Camera.Spaced.{Spaced, published, cam_loop-Spaced}

abbrev three : Shots
three = (picture 180 1, at 9 0) ∷ (picture 180 2, at 9 0) ∷ (picture 180 3, at 9 0) ∷ []

plain : Plain small_vd every_second three
plain = record {
  format = refl;
  undropped = refl;
  sized = (refl, refl);
  unstamped = refl;
  whole = (whole 1, (whole 2, (whole 3, tt)));
}

cam_thread-every_example :
    (frames : List Frame) × (last : Camera) × (cam_thread jpeg every_second none true small_vd
        (map shot_of three)
      ≡ turned frames last)
    × ((j : ℕ) → get_elem? frames j ≡ get_elem? (map taken_of three) (2 - 1 + j * 2))
cam_thread-every_example = cam_thread-every jpeg small_vd every_second three plain (omega arith)

abbrev empty_buffers : Shots
empty_buffers = (record { bytes = []; timestamp = at 2 0 }, at 9 0) ∷ []

cam_thread-stale_example :
    (last : Camera) × (cam_thread jpeg each_one none true small_vd
        (map shot_of ((picture 180 1, at 9 0) ∷ empty_buffers))
      ≡ turned (replicate 2 (frame_of (picture 180 1))) last)
cam_thread-stale_example =
    cam_thread-stale jpeg small_vd each_one (picture 180 1) (at 9 0) empty_buffers refl refl
      (refl, refl) refl refl (whole 1) (omega arith, tt)

abbrev refused : Change
refused = record { stops = false; driver = driver; tmp = true; frame = true; streams = true }

cam_loop-stalled_example :
    published (
      cam_loop jpeg each_one
        (resolution refused 20 10 ∷ round interrupted ∷ resolution refused 10 10 ∷ [])
        (start_camera small_vd))
    ≡ []
unfolding start_camera set_resolution
cam_loop-stalled_example =
    cam_loop-stalled jpeg each_one refused 20 10 (state_set streaming_paused small_vd)
      (start_camera small_vd) (round interrupted ∷ resolution refused 10 10 ∷ []) refl (λ h. h)

set_resolution-Changed_example : Changed (negsuc 0) (set_resolution accepted 20 10 small_vd)
set_resolution-Changed_example = set_resolution-Changed accepted 20 10 small_vd

abbrev grown_vd : VdIn
grown_vd = record small_vd {
  streaming_state = streaming_on;
  width = 20;
  framesize_in = 400;
  tmpbuffer = replicate 400 0;
  framebuffer = replicate 720 0;
}

too_large : TooLarge 0 400 200 (picture 300 1)
too_large = record {
  completable = inl (unfold is_huffman in refl);
  header = omega arith;
  large = omega arith;
  fits_device = omega arith;
  exceeds_global = unfold complete in unfold is_huffman in omega arith;
}

cam_loop-grown_example :
    cam_loop jpeg each_one
      (resolution accepted 20 10 ∷ shot (picture 300 1) (at 9 0) ∷ [])
      (start_camera small_vd)
    ≡ crashed (in_global (complete (picture 300 1).bytes)) []
unfolding start_camera set_resolution
cam_loop-grown_example =
    cam_loop-grown jpeg each_one accepted 20 10 grown_vd (start_camera small_vd) (picture 300 1)
      (at 9 0) [] refl refl refl refl refl too_large

abbrev slow_vd : VdIn
slow_vd = record small_vd { soft_framedrop = true; frame_period_time = 500 }

abbrev rounds : List Selected
rounds = ready true (grab_of (picture 180 1)) (at 9 0) none ∷ []

cam_loop-Spaced_example :
    Spaced 500 0 (published (cam_loop jpeg each_one (map round rounds) (start_camera slow_vd)))
unfolding start_camera
cam_loop-Spaced_example = cam_loop-Spaced jpeg each_one rounds (start_camera slow_vd) refl refl

-- A device with pictures of two by one pixels in RGB.
abbrev raw_vd : VdIn
raw_vd = record small_vd {
  width = 2;
  height = 1;
  format_in = raw rgb24;
  framesize_in = 6;
  framebuffer = replicate 6 0;
}

abbrev raw_rounds : List Selected
raw_rounds =
    ready true (grab_of (record { bytes = replicate 9 200; timestamp = at 1 0 })) (at 9 0) none
    ∷ interrupted
    ∷ []

-- A compressor that keeps the first six samples of the first row.
abbrev first_samples : ℕ → List (List ℕ) → List ℕ
first_samples quality [] = []
first_samples quality (row ∷ rows) = take 6 row

cam_loop-Survives_example :
    Survives
      (TooLong (first_samples 80) 2 1 6)
      (cam_loop first_samples each_one (map round raw_rounds) (start_camera raw_vd))
unfolding start_camera
cam_loop-Survives_example =
    cam_loop-Survives first_samples each_one rgb24 raw_rounds (start_camera raw_vd) refl
      (refl, refl) refl
      (omega arith, (omega arith, (omega arith, (omega arith, (omega arith, (omega arith, tt))))))
      refl
      (
        (
          omega arith,
          (
            omega arith,
            (
              omega arith,
              (
                omega arith,
                (omega arith, (omega arith, (omega arith, (omega arith, (omega arith, tt))))),
              ),
            ),
          ),
        ),
        (tt, tt),
      )
