-- ===== src/Uvc/Camera/Stalled.antt =====
-- cam_thread while the camera is paused.
use raspberry_car.Base.{ℕ, ◌≡◌, refl, ap, ◌∙◌, subst, List, [], ◌∷◌}
use raspberry_car.Uvc.Device.{StreamingState, streaming_paused, VdIn, Result, ok, failed, trapped}
use raspberry_car.Uvc.Device.Setup.{Change, set_resolution}
use raspberry_car.Uvc.Device.Sizes.{Changed, set_resolution-Changed}
use raspberry_car.Uvc.Camera.{
  Settings, Camera, vd_set, turned, Selected, Event, round, resolution, commanded, and_then, turn,
  happens, cam_loop,
}
use raspberry_car.Uvc.Camera.Spaced.{published, published-prepend}

-- Whether a command succeeds whose change ended in this way, or else one of those behind it.
abbrev pub SucceedsOr : Result → (VdIn → Type 0) → Type 0
SucceedsOr (ok vd) later = Unit {0}
SucceedsOr (failed vd) later = later vd
SucceedsOr trapped later = ⊥

-- Whether a command among these events changes the resolution with success; each finds the device
-- as the failing ones before it leave it.
abbrev pub Resumes : List Event → VdIn → Type 0
Resumes [] vd = ⊥
Resumes (round r ∷ events) vd = Resumes events vd
Resumes (resolution d width height ∷ events) vd =
    SucceedsOr (set_resolution d width height vd) (λ next. Resumes events next)

module _ (jpeg : ℕ → List (List ℕ) → List ℕ) (s : Settings) where
  turn-paused :
      (state : StreamingState) (r : Selected) (c : Camera)
      → state ≡ streaming_paused
      → turn jpeg state s r c ≡ turned [] c
  unfolding turn
  turn-paused state r c e = rw (e, turn) refl

  -- A change that a paused camera meets, and what follows it if it fails too.
  commanded-silent :
      (r : Result) (events : List Event) (c : Camera)
      → Changed c.vd.fps r
      → ¬ (SucceedsOr r (λ next. Resumes events next))
      → ((vd : VdIn)
          → vd.streaming_state ≡ streaming_paused
          → ¬ (Resumes events vd)
          → published (cam_loop jpeg s events (vd_set vd c)) ≡ [])
      → published (and_then (commanded r c) (cam_loop jpeg s events)) ≡ []
  unfolding commanded
  commanded-silent (ok vd) events c h stuck rest = absurd (stuck tt)
  commanded-silent (failed vd) events c h stuck rest =
      published-prepend [] (cam_loop jpeg s events (vd_set vd c)) ∙ rest vd h stuck
  commanded-silent trapped events c h stuck rest = refl

  cam_loop-paused :
      (events : List Event) (c : Camera)
      → c.vd.streaming_state ≡ streaming_paused
      → ¬ (Resumes events c.vd)
      → published (cam_loop jpeg s events c) ≡ []
  unfolding cam_loop happens
  cam_loop-paused [] c e stuck = refl
  cam_loop-paused (round r ∷ events) c e stuck =
      ap (λ t. published (and_then t (cam_loop jpeg s events)))
        (turn-paused c.vd.streaming_state r c e)
      ∙ published-prepend [] (cam_loop jpeg s events c)
      ∙ cam_loop-paused events c e stuck
  cam_loop-paused (resolution d width height ∷ events) c e stuck =
      commanded-silent (set_resolution d width height c.vd) events c
        (set_resolution-Changed d width height c.vd) stuck
        (λ vd paused none_. cam_loop-paused events (vd_set vd c) paused none_)

-- Behind a change of the resolution that fails, at whatever step, the thread publishes nothing, and
-- other changes that fail do not help: in any list of turns, whatever they meet, and of commands,
-- nothing is published as long as no command for another resolution succeeds.
pub cam_loop-stalled :
    (jpeg : ℕ → List (List ℕ) → List ℕ) (s : Settings) (d : Change) (width height : ℕ) (vd : VdIn)
    (c : Camera) (events : List Event)
    → set_resolution d width height c.vd ≡ failed vd
    → ¬ (Resumes events vd)
    → published (cam_loop jpeg s (resolution d width height ∷ events) c) ≡ []
unfolding cam_loop happens commanded
cam_loop-stalled jpeg s d width height vd c events e stuck =
    let paused : vd.streaming_state ≡ streaming_paused =
      subst (Changed c.vd.fps) e (set_resolution-Changed d width height c.vd) in
    ap (λ r. published (and_then (commanded r c) (cam_loop jpeg s events))) e
    ∙ published-prepend [] (cam_loop jpeg s events (vd_set vd c))
    ∙ cam_loop-paused jpeg s events (vd_set vd c) paused stuck
