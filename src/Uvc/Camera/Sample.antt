-- ===== src/Uvc/Camera/Sample.antt =====
-- Data for the runs of the camera's thread.
use raspberry_car.Base.{inl, ℕ, refl, true, false, List, [], ◌∷◌, none, some, replicate, arith}
use raspberry_car.Base.Int.{negsuc}
use raspberry_car.Http.Clients.{Timeval}
use raspberry_car.Uvc.Picture.{is_huffman}
use raspberry_car.Uvc.Picture.Complete.{complete}
use raspberry_car.Uvc.Device.{mjpeg, streaming_off, VdIn, Dequeued}
use raspberry_car.Uvc.Device.Setup.{Driver, Change}
use raspberry_car.Uvc.Camera.{Settings}
use raspberry_car.Uvc.Camera.Whole.{IsWhole}

abbrev pub at : ℕ → ℕ → Timeval
at sec usec = record { tv_sec = sec; tv_usec = usec }

-- A device of ten by ten pixels.
abbrev pub small_vd : VdIn
small_vd = record {
  streaming_state = streaming_off;
  grabmethod = true;
  width = 10;
  height = 10;
  fps = negsuc 0;
  format_in = mjpeg;
  vstd = false;
  dv_timings = false;
  framesize_in = 200;
  tmpbuffer = replicate 200 0;
  framebuffer = [];
  tmpbytesused = 0;
  tmptimestamp = at 0 0;
  frame_period_time = 0;
  soft_framedrop = false;
}

abbrev pub jpeg : ℕ → List (List ℕ) → List ℕ
jpeg quality rows = []

abbrev pub every_second : Settings
every_second = record { every = 2; minimum_size = 0; want_timestamp = false; quality = 80 }

abbrev pub each_one : Settings
each_one = record { every = 1; minimum_size = 0; want_timestamp = false; quality = 80 }

-- A picture with tables, of `n + 2` bytes.
abbrev pub picture : ℕ → ℕ → Dequeued
picture n sec = record { bytes = 0xff ∷ 0xc4 ∷ replicate n 7; timestamp = at sec 0 }

pub whole : (sec : ℕ) → IsWhole 0 200 200 (picture 180 sec)
whole sec = record {
  completable = inl (unfold is_huffman in refl);
  header = omega arith;
  large = omega arith;
  fits_device = omega arith;
  fits_global = unfold complete in unfold is_huffman in omega arith;
}

-- A driver that sets up a device of twenty by ten pixels, and a change that it accepts.
abbrev pub driver : Driver
driver = record {
  opens = true;
  querycap = true;
  capture = true;
  streaming = true;
  readwrite = false;
  sets_std = true;
  dv_timings = none;
  sets_dv_timings = true;
  std = false;
  sets_found_std = true;
  keeps_format = false;
  fmt = some (20, 10, mjpeg);
  parm = none;
  reqbufs = true;
  maps = λ i. true;
  queues = λ i. true;
}

abbrev pub accepted : Change
accepted = record { stops = true; driver = driver; tmp = true; frame = true; streams = true }
