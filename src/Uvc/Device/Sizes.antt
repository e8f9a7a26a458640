-- ===== src/Uvc/Device/Sizes.antt =====
-- How the camera stands after a change of its resolution: streaming with buffers of the right
-- size, or paused.
use raspberry_car.Base.{
  ℕ, zero, suc, ◌*◌, ◌≡◌, refl, Bool, true, false, not, List, ◌&&◌, ◌||◌, Option, none, some,
  if◌then◌else◌, inl, inr, subst, Bool-cases, length, length-replicate,
}
use raspberry_car.Base.Int.{ℤ, pos, negsuc}
use raspberry_car.Uvc.Pixels.{rgb24, rgb565, yuyv, uyvy, other}
use raspberry_car.Uvc.Device.{
  FormatIn, mjpeg, raw, StreamingState, streaming_on, streaming_paused, VdIn, Result, ok, failed,
  trapped, ◌>>=◌, guard, state_set, video_enable, video_disable, free_framebuffer, init_raw,
  init_framebuffer_as, init_framebuffer,
}
use raspberry_car.Uvc.Device.Setup.{
  Driver, timings_found, video_set_dv_timings, other_format, set_format, soft_rate, rate, set_rate,
  nb_buffer, each_buffer, init_v4l2, Change, size_set, set_resolution,
}

-- The buffer that pictures of the format go to is as long as a picture of the size needs.
abbrev pub SizedAs : FormatIn → ℕ → ℕ → List ℕ → List ℕ → Type 0
SizedAs mjpeg pixels size tmp frame = (size ≡ pixels * 2) × (length tmp ≡ size)
SizedAs (raw other) pixels size tmp frame = ⊥
SizedAs (raw rgb24) pixels size tmp frame = (size ≡ pixels * 3) × (length frame ≡ size)
SizedAs (raw f) pixels size tmp frame = (size ≡ pixels * 2) × (length frame ≡ size)

abbrev pub IsSized : VdIn → Type 0
IsSized vd = SizedAs vd.format_in (vd.width * vd.height) vd.framesize_in vd.tmpbuffer vd.framebuffer

-- After a change: streaming and sized, or paused; undefined only for a rate of 0 frames per second.
abbrev pub Changed : ℤ → Result → Type 0
Changed fps (ok vd) = (vd.streaming_state ≡ streaming_on) × IsSized vd
Changed fps (failed vd) = vd.streaming_state ≡ streaming_paused
Changed fps trapped = fps ≡ pos 0

-- A step that keeps the state and the rate.
abbrev Steady : StreamingState → ℤ → VdIn → Type 0
Steady s fps vd = (vd.streaming_state ≡ s) × (vd.fps ≡ fps)

abbrev Keeps : StreamingState → ℤ → Result → Type 0
Keeps s fps (ok vd) = Steady s fps vd
Keeps s fps (failed vd) = vd.streaming_state ≡ s
Keeps s fps trapped = fps ≡ pos 0

module _ (s : StreamingState) (fps : ℤ) where
  Keeps-bind :
      (r : Result) (f : VdIn → Result)
      → Keeps s fps r
      → ((vd : VdIn) → Steady s fps vd → Keeps s fps (f vd))
      → Keeps s fps (r >>= f)
  Keeps-bind (ok vd) f h step = step vd h
  Keeps-bind (failed vd) f h step = h
  Keeps-bind trapped f h step = h

  guard-Keeps : (b : Bool) (vd : VdIn) → Steady s fps vd → Keeps s fps (guard b vd)
  guard-Keeps true vd h = h
  guard-Keeps false vd h = h.0

  timings_found-Keeps :
      (found : Option (ℕ × ℕ)) (d : Driver) (vd : VdIn)
      → Steady s fps vd
      → Keeps s fps (timings_found found d vd)
  unfolding timings_found
  timings_found-Keeps (some (w, h)) d vd k =
      elim d.sets_dv_timings as (λ b. Keeps s fps (if b then ok (size_set w h vd) else failed vd)) [
        | true ↦ k
        | false ↦ k.0
      ]
  timings_found-Keeps none d vd k =
      elim d.std as (λ b. Keeps s fps (if b then guard d.sets_found_std vd else ok vd)) [
        | true ↦ guard-Keeps d.sets_found_std vd k
        | false ↦ k
      ]

  other_format-Keeps :
      (keeps : Bool) (f : FormatIn) (vd : VdIn)
      → Steady s fps vd
      → Keeps s fps (other_format keeps f vd)
  unfolding other_format
  other_format-Keeps true (raw other) vd k = k
  other_format-Keeps true (raw yuyv) vd k = k.0
  other_format-Keeps true (raw uyvy) vd k = k.0
  other_format-Keeps true (raw rgb24) vd k = k.0
  other_format-Keeps true (raw rgb565) vd k = k.0
  other_format-Keeps true mjpeg vd k = k.0
  other_format-Keeps false f vd k = k.0

  set_format-Keeps :
      (fmt : Option (ℕ × ℕ × FormatIn)) (keeps : Bool) (vd : VdIn)
      → Steady s fps vd
      → Keeps s fps (set_format fmt keeps vd)
  unfolding set_format
  set_format-Keeps none keeps vd k = k.0
  set_format-Keeps (some (w, h, mjpeg)) keeps vd k = k
  set_format-Keeps (some (w, h, raw yuyv)) keeps vd k = k
  set_format-Keeps (some (w, h, raw uyvy)) keeps vd k = k
  set_format-Keeps (some (w, h, raw rgb24)) keeps vd k = k
  set_format-Keeps (some (w, h, raw rgb565)) keeps vd k = k
  set_format-Keeps (some (w, h, raw other)) keeps vd k =
      other_format-Keeps keeps vd.format_in (size_set w h vd) k

  soft_rate-Keeps : (n : ℤ) (vd : VdIn) → n ≡ fps → Steady s fps vd → Keeps s fps (soft_rate n vd)
  unfolding soft_rate
  soft_rate-Keeps (pos zero) vd e k = cc
  soft_rate-Keeps (pos (suc n)) vd e k = k
  soft_rate-Keeps (negsuc n) vd e k = k

  rate-Keeps : (parm : Option Bool) (vd : VdIn) → Steady s fps vd → Keeps s fps (rate parm vd)
  unfolding rate
  rate-Keeps none vd k = k
  rate-Keeps (some true) vd k = k
  rate-Keeps (some false) vd k = soft_rate-Keeps vd.fps vd k.1 k

  set_rate-Keeps :
      (n : ℤ) (parm : Option Bool) (vd : VdIn) → Steady s fps vd → Keeps s fps (set_rate n parm vd)
  unfolding set_rate
  set_rate-Keeps (negsuc zero) parm vd k = k
  set_rate-Keeps (negsuc (suc n)) parm vd k = rate-Keeps parm vd k
  set_rate-Keeps (pos n) parm vd k = rate-Keeps parm vd k

  timed-Keeps :
      (b : Bool) (d : Driver) (vd : VdIn)
      → Steady s fps vd
      → Keeps s fps (if b then video_set_dv_timings d vd else ok vd)
  unfolding video_set_dv_timings
  timed-Keeps true d vd k = timings_found-Keeps d.dv_timings d vd k
  timed-Keeps false d vd k = k

  init_v4l2-Keeps : (d : Driver) (vd : VdIn) → Steady s fps vd → Keeps s fps (init_v4l2 d vd)
  unfolding init_v4l2
  init_v4l2-Keeps d vd k = Keeps-bind (guard d.opens vd) _ (guard-Keeps d.opens vd k) (λ opened k₁.
      Keeps-bind (guard (d.querycap && d.capture) opened) _
        (guard-Keeps (d.querycap && d.capture) opened k₁)
        (λ known k₂.
          let can = if vd.grabmethod then d.streaming else d.readwrite in
          Keeps-bind (guard can known) _ (guard-Keeps can known k₂) (λ able k₃.
            let norm = not vd.vstd || d.sets_std in
            Keeps-bind (guard norm able) _ (guard-Keeps norm able k₃) (λ standard k₄.
              Keeps-bind (if vd.dv_timings then video_set_dv_timings d standard else ok standard) _
                (timed-Keeps vd.dv_timings d standard k₄)
                (λ timed k₅.
                  Keeps-bind (set_format d.fmt d.keeps_format timed) _
                    (set_format-Keeps d.fmt d.keeps_format timed k₅)
                    (λ formatted k₆.
                      Keeps-bind (set_rate vd.fps d.parm formatted) _
                        (set_rate-Keeps vd.fps d.parm formatted k₆)
                        (λ rated k₇.
                          Keeps-bind (guard d.reqbufs rated) _ (guard-Keeps d.reqbufs rated k₇)
                            (λ requested k₈.
                              Keeps-bind (guard (each_buffer nb_buffer d.maps) requested) _
                                (guard-Keeps (each_buffer nb_buffer d.maps) requested k₈)
                                (λ mapped k₉.
                                  guard-Keeps (each_buffer nb_buffer d.queues) mapped k₉)))))))))

-- The buffers are sized, or there are none and the state stays.
abbrev Buffered : StreamingState → Result → Type 0
Buffered s (ok vd) = (vd.streaming_state ≡ s) × IsSized vd
Buffered s (failed vd) = vd.streaming_state ≡ s
Buffered s trapped = ⊥

init_framebuffer_as-Buffered :
    (f : FormatIn) (tmp frame : Bool) (vd : VdIn)
    → vd.format_in ≡ f
    → Buffered vd.streaming_state (init_framebuffer_as f tmp frame vd)
unfolding init_framebuffer_as init_raw
init_framebuffer_as-Buffered mjpeg true true vd e =
    rw e (refl, (refl, length-replicate (vd.width * vd.height * 2) 0))
init_framebuffer_as-Buffered mjpeg true false vd e = refl
init_framebuffer_as-Buffered mjpeg false frame vd e = refl
init_framebuffer_as-Buffered (raw rgb24) tmp true vd e =
    rw e (refl, (refl, length-replicate (vd.width * vd.height * 3) 0))
init_framebuffer_as-Buffered (raw rgb24) tmp false vd e = refl
init_framebuffer_as-Buffered (raw rgb565) tmp true vd e =
    rw e (refl, (refl, length-replicate (vd.width * vd.height * 2) 0))
init_framebuffer_as-Buffered (raw rgb565) tmp false vd e = refl
init_framebuffer_as-Buffered (raw yuyv) tmp true vd e =
    rw e (refl, (refl, length-replicate (vd.width * vd.height * 2) 0))
init_framebuffer_as-Buffered (raw yuyv) tmp false vd e = refl
init_framebuffer_as-Buffered (raw uyvy) tmp true vd e =
    rw e (refl, (refl, length-replicate (vd.width * vd.height * 2) 0))
init_framebuffer_as-Buffered (raw uyvy) tmp false vd e = refl
init_framebuffer_as-Buffered (raw other) tmp frame vd e = refl

-- The last two steps.
enabled-Changed :
    (fps : ℤ) (streams : Bool) (r : Result)
    → Buffered streaming_paused r
    → Changed fps (r >>= video_enable streams)
unfolding video_enable
enabled-Changed fps true (ok vd) h = (refl, h.1)
enabled-Changed fps false (ok vd) h = h.0
enabled-Changed fps streams (failed vd) h = h
enabled-Changed fps streams trapped h = absurd h

free_framebuffer-Steady :
    (s : StreamingState) (fps : ℤ) (vd : VdIn)
    → Steady s fps vd
    → Steady s fps (free_framebuffer vd)
unfolding free_framebuffer
free_framebuffer-Steady s fps vd h = h

buffers-Changed :
    (fps : ℤ) (c : Change) (r : Result)
    → Keeps streaming_paused fps r
    → Changed fps (
        r >>= λ set_up.
        init_framebuffer c.tmp c.frame (free_framebuffer set_up) >>= video_enable c.streams)
unfolding init_framebuffer
buffers-Changed fps c (ok vd) h =
    let cleared = free_framebuffer vd in
    let steady = free_framebuffer-Steady streaming_paused fps vd h in
    enabled-Changed fps c.streams (init_framebuffer_as cleared.format_in c.tmp c.frame cleared) (
      subst (λ s. Buffered s (init_framebuffer_as cleared.format_in c.tmp c.frame cleared)) steady.0
        (init_framebuffer_as-Buffered cleared.format_in c.tmp c.frame cleared refl))
buffers-Changed fps c (failed vd) h = h
buffers-Changed fps c trapped h = h

-- A change of the resolution ends in one of three ways. It succeeds: the camera streams, and the
-- buffer for its pictures has the size that the new resolution and format need. It fails: the
-- camera stays paused. Or it divides by zero, which happens only where the rate asked for is 0.
pub set_resolution-Changed :
    (c : Change) (width height : ℕ) (vd : VdIn) → Changed vd.fps (set_resolution c width height vd)
unfolding set_resolution video_disable
set_resolution-Changed c width height vd = elim (Bool-cases c.stops) [
  | inl stopped ↦ rw stopped (
      buffers-Changed vd.fps c _ (
        init_v4l2-Keeps streaming_paused vd.fps c.driver
          (size_set width height (state_set streaming_paused vd)) (refl, refl)))
  | inr running ↦ rw running refl
]
