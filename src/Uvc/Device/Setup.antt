-- ===== src/Uvc/Device/Setup.antt =====
-- v4l2uvc.c: init_v4l2, video_set_dv_timings and setResolution.
use raspberry_car.Base.{
  ℕ, zero, suc, ◌-◌, ◌/◌, ◌%◌, ◌^◌, Bool, true, false, not, ◌&&◌, ◌||◌, Option, none, some,
  if◌then◌else◌,
}
use raspberry_car.Base.Int.{ℤ, pos, negsuc}
use raspberry_car.Uvc.Pixels.{other}
use raspberry_car.Uvc.Device.{
  FormatIn, raw, streaming_paused, VdIn, Result, ok, failed, trapped, ◌>>=◌, guard, state_set,
  video_enable, video_disable, free_framebuffer, init_framebuffer,
}

-- What the driver answers while it is set up: whether a call succeeds, and what it returns.
-- `parm` is `capability & V4L2_CAP_TIMEPERFRAME`; the numbers are those of the buffers.
pub record Driver : Type 0 where
  pub opens : Bool
  pub querycap : Bool
  pub capture : Bool
  pub streaming : Bool
  pub readwrite : Bool
  pub sets_std : Bool
  pub dv_timings : Option (ℕ × ℕ)
  pub sets_dv_timings : Bool
  pub std : Bool
  pub sets_found_std : Bool
  pub fmt : Option (ℕ × ℕ × FormatIn)
  pub keeps_format : Bool
  pub parm : Option Bool
  pub reqbufs : Bool
  pub maps : ℕ → Bool
  pub queues : ℕ → Bool

abbrev pub size_set : ℕ → ℕ → VdIn → VdIn
size_set w h vd = record vd { width = w; height = h }

unfoldable pub timings_found : Option (ℕ × ℕ) → Driver → VdIn → Result
timings_found (some (w, h)) d vd = if d.sets_dv_timings then ok (size_set w h vd) else failed vd
timings_found none d vd = if d.std then guard d.sets_found_std vd else ok vd

unfoldable pub video_set_dv_timings : Driver → VdIn → Result
unfolding timings_found
video_set_dv_timings d vd = timings_found d.dv_timings d vd

-- The format that the driver gives, with its size, in place of the one asked for.
-- An unknown format, which is the one that was asked for if `keeps_format`.
unfoldable pub other_format : Bool → FormatIn → VdIn → Result
other_format true (raw other) vd = ok vd
other_format keeps_format f vd = failed vd

unfoldable pub set_format : Option (ℕ × ℕ × FormatIn) → Bool → VdIn → Result
unfolding other_format
set_format none keeps_format vd = failed vd
set_format (some (w, h, raw other)) keeps_format vd =
    other_format keeps_format vd.format_in (size_set w h vd)
set_format (some (w, h, f)) keeps_format vd = ok (record (size_set w h vd) { format_in = f })

-- `frame_period_time = 1000 / fps`, stored as an unsigned number.
unfoldable pub soft_rate : ℤ → VdIn → Result
soft_rate (pos zero) vd = trapped
soft_rate (pos (suc n)) vd =
    ok (record vd { soft_framedrop = true; frame_period_time = 1000 / suc n })
soft_rate (negsuc n) vd =
    ok (record vd { soft_framedrop = true; frame_period_time = (2 ^ 64 - 1000 / suc n) % 2 ^ 64 })

unfoldable pub rate : Option Bool → VdIn → Result
unfolding soft_rate
rate none vd = ok vd
rate (some true) vd = ok vd
rate (some false) vd = soft_rate vd.fps vd

unfoldable pub set_rate : ℤ → Option Bool → VdIn → Result
unfolding rate
set_rate (negsuc zero) parm vd = ok vd
set_rate fps parm vd = rate parm vd

abbrev pub nb_buffer : ℕ
nb_buffer = 4

-- A loop over the buffers that ends at the first failure.
unfoldable pub each_buffer : ℕ → (ℕ → Bool) → Bool
each_buffer zero calls = true
each_buffer (suc n) calls = calls n && each_buffer n calls

unfoldable pub init_v4l2 : Driver → VdIn → Result
unfolding video_set_dv_timings set_format set_rate each_buffer
init_v4l2 d vd = do
  opened ← guard d.opens vd
  known ← guard (d.querycap && d.capture) opened
  able ← guard (if vd.grabmethod then d.streaming else d.readwrite) known
  standard ← guard (not vd.vstd || d.sets_std) able
  timed ← if vd.dv_timings then video_set_dv_timings d standard else ok standard
  formatted ← set_format d.fmt d.keeps_format timed
  rated ← set_rate vd.fps d.parm formatted
  requested ← guard d.reqbufs rated
  mapped ← guard (each_buffer nb_buffer d.maps) requested
  guard (each_buffer nb_buffer d.queues) mapped

-- Whether streaming stops and starts, and whether there is memory for the buffers.
pub record Change : Type 0 where
  pub stops : Bool
  pub driver : Driver
  pub tmp : Bool
  pub frame : Bool
  pub streams : Bool

unfoldable pub set_resolution : Change → ℕ → ℕ → VdIn → Result
unfolding video_enable video_disable free_framebuffer init_framebuffer init_v4l2
set_resolution c width height vd = do
  paused ← video_disable c.stops streaming_paused (state_set streaming_paused vd)
  set_up ← init_v4l2 c.driver (size_set width height paused)
  buffered ← init_framebuffer c.tmp c.frame (free_framebuffer set_up)
  video_enable c.streams buffered
