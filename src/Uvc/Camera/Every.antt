-- ===== src/Uvc/Camera/Every.antt =====
-- cam_thread: which of the pictures are published under the option `every`.
use mathlib.Core.List.{Sublistᴰ}
use mathlib.Core.List.Sublistᴰ.{slnil, cons, cons-cons}
use native.Mathlib.Nat.{suc-mul}
use raspberry_car.Base.{
  ℕ, zero, suc, ◌+◌, ◌-◌, ◌*◌, ◌≤◌, ◌≡◌, refl, sym, ap, ◌∙◌, subst, true, false, List, [], ◌∷◌,
  ◌++◌, none, ltb, if◌then◌else◌, map, All, drop, length, length-append, length-drop, get_elem?,
  Bool-cases, inl, inr, arith,
}
use raspberry_car.Http.Clients.{Timeval}
use raspberry_car.Http.Stream.{Frame}
use raspberry_car.Uvc.Device.{mjpeg, streaming_on, VdIn, Dequeued, state_set, video_enable}
use raspberry_car.Uvc.Device.Sizes.{SizedAs, IsSized}
use raspberry_car.Uvc.Camera.{
  Settings, Camera, Turned, turned, prepend, and_then, Event, cam_loop, start_camera, enabled,
  cam_thread,
}
use raspberry_car.Uvc.Camera.Whole.{behind, frame_of, IsWhole, shot, camera, happens-shot}

abbrev pub no_frame : Frame
no_frame = record { buf = []; tv_sec = 0; tv_usec = 0 }

-- The pictures that the driver hands out, each with what the clock says then.
abbrev pub Shots : Type 0
Shots = List (Dequeued × Timeval)

abbrev pub shot_of : Dequeued × Timeval → Event
shot_of (d, now) = shot d now

abbrev pub taken_of : Dequeued × Timeval → Frame
taken_of (d, now) = frame_of d

abbrev pub AllWhole : ℕ → ℕ → ℕ → Shots → Type 0
AllWhole minimum_size framesize capacity =
    All (λ (p : Dequeued × Timeval). IsWhole minimum_size framesize capacity p.0)

-- The frames that are left when `k` are passed over before each, `n` of them already.
unfoldable pub every_nth : ℕ → ℕ → Shots → List Frame
every_nth k n [] = []
every_nth k n (p ∷ shots) =
    let rest = every_nth k (if ltb n k then n + 1 else 0) shots in
    if ltb n k then rest else taken_of p ∷ rest

-- A frame that is published, before those that are left.
get_elem?-published :
    (k n : ℕ) (x : Frame) (rest all : List Frame) (j : ℕ)
    → n ≤ k
    → ltb n k ≡ false
    → ((i : ℕ) → get_elem? rest i ≡ get_elem? all (k - 0 + i * suc k))
    → get_elem? (x ∷ rest) j ≡ get_elem? (x ∷ all) (k - n + j * suc k)
get_elem?-published k n x rest all zero h take later =
    let e : k - n + zero * suc k ≡ 0 = ground arith in rw e refl
get_elem?-published k n x rest all (suc j) h take later =
    let e : k - n + suc j * suc k ≡ suc (k - 0 + j * suc k) = ground (arith, suc-mul j (suc k)) in
    rw e (later j)

get_elem?-every_nth :
    (k n : ℕ) (shots : Shots) (j : ℕ)
    → n ≤ k
    → get_elem? (every_nth k n shots) j ≡ get_elem? (map taken_of shots) (k - n + j * suc k)
unfolding every_nth
get_elem?-every_nth k n [] j h = refl
get_elem?-every_nth k n (p ∷ shots) j h = elim (Bool-cases (ltb n k)) [
  | inl pass ↦
      let e : k - n + j * suc k ≡ suc (k - (n + 1) + j * suc k) = ground arith in
      rw (pass, e) (get_elem?-every_nth k (n + 1) shots j (ground arith))
  | inr take ↦ rw take (
      get_elem?-published k n (taken_of p) (every_nth k 0 shots) (map taken_of shots) j h take
        (λ i. get_elem?-every_nth k 0 shots i (omega arith)))
]

pub length-behind :
    (d : Dequeued) (mem : List ℕ) → length d.bytes ≤ length mem → length (behind d mem) ≡ length mem
length-behind d mem h =
    omega
      (arith, length-append d.bytes (drop (length d.bytes) mem), length-drop (length d.bytes) mem)

module _ (jpeg : ℕ → List (List ℕ) → List ℕ) (vd : VdIn) (s : Settings) (capacity : ℕ) where
  -- A turn whose picture leads to `t`, and the turns behind it.
  abbrev Published : Shots → Turned → List Frame → Type 0
  Published shots t frames =
      (last : Camera) × (and_then t (λ c. cam_loop jpeg s (map shot_of shots) c)
        ≡ turned frames last)

  after_turned :
      (shots : Shots) (front frames : List Frame) (c last : Camera)
      → cam_loop jpeg s (map shot_of shots) c ≡ turned frames last
      → Published shots (turned front c) (front ++ frames)
  after_turned shots front frames c last e = (last, ap (prepend front) e)

  cam_loop-every_nth :
      (shots : Shots) (mem : List ℕ) (used n : ℕ) (t : Timeval) (f : Frame)
      → s.want_timestamp ≡ false
      → AllWhole s.minimum_size (length mem) capacity shots
      → (last : Camera) × (cam_loop jpeg s (map shot_of shots) (camera vd s capacity mem used t n f)
          ≡ turned (every_nth (s.every - 1) n shots) last)
  unfolding cam_loop every_nth
  cam_loop-every_nth [] mem used n t f w h = (camera vd s capacity mem used t n f, refl)
  cam_loop-every_nth ((d, now) ∷ shots) mem used n t f w h =
      let same = length-behind d mem h.0.fits_device in
      let whole : AllWhole s.minimum_size (length (behind d mem)) capacity shots =
        subst (λ m. AllWhole s.minimum_size m capacity shots) (sym same) h.1 in
      let passed =
        cam_loop-every_nth shots (behind d mem) (length d.bytes) (n + 1) d.timestamp f w whole in
      let begun =
        cam_loop-every_nth shots (behind d mem) (length d.bytes) 0 d.timestamp (frame_of d) w
          whole in
      rw (happens-shot jpeg vd s capacity mem used n t now f d w h.0)
        (elim (Bool-cases (ltb n (s.every - 1))) [
          | inl pass ↦ rw pass (after_turned shots [] _ _ passed.0 passed.1)
          | inr take ↦ rw take (after_turned shots (frame_of d ∷ []) _ _ begun.0 begun.1)
        ])

  -- The camera behind `video_enable`, in the words of these lemmas.
  pub started :
      vd.format_in ≡ mjpeg
      → vd.soft_framedrop ≡ false
      → start_camera (state_set streaming_on vd)
        ≡ camera vd s vd.framesize_in vd.tmpbuffer vd.tmpbytesused vd.tmptimestamp 0 no_frame
  unfolding start_camera
  started e h = λ i. record {
    vd = record vd { streaming_state = streaming_on; format_in = e i; soft_framedrop = h i };
    every_count = 0;
    capacity = vd.framesize_in;
    frame = no_frame;
  }

place : (every j : ℕ) → 1 ≤ every → every - 1 - 0 + j * suc (every - 1) ≡ every - 1 + j * every
place every j h =
    let same : suc (every - 1) ≡ every = omega arith in
    ap (λ m. every - 1 - 0 + j * m) same ∙ omega arith

-- The conditions on the device, the options and the pictures under which each picture is published
-- or passed over: buffers sized as `init_framebuffer` leaves them, no frames dropped for
-- their rate, no time of the plugin's own, and pictures that can be completed, are larger than a
-- header and the minimum size, and fit in the frame size, also with their tables.
pub record Plain (vd : VdIn) (s : Settings) (shots : Shots) : Type 0 where
  pub format : vd.format_in ≡ mjpeg
  pub undropped : vd.soft_framedrop ≡ false
  pub sized : IsSized vd
  pub unstamped : s.want_timestamp ≡ false
  pub whole : AllWhole s.minimum_size vd.framesize_in vd.framesize_in shots

pub cam_thread-every_nth :
    (jpeg : ℕ → List (List ℕ) → List ℕ) (vd : VdIn) (s : Settings) (shots : Shots)
    → Plain vd s shots
    → (last : Camera) × (cam_thread jpeg s none true vd (map shot_of shots)
        ≡ turned (every_nth (s.every - 1) 0 shots) last)
unfolding cam_thread enabled video_enable
cam_thread-every_nth jpeg vd s shots p =
    let size : length vd.tmpbuffer ≡ vd.framesize_in =
      (subst (λ f. SizedAs f (vd.width * vd.height) vd.framesize_in vd.tmpbuffer vd.framebuffer)
        p.format p.sized).1 in
    let run =
      cam_loop-every_nth jpeg vd s vd.framesize_in shots vd.tmpbuffer vd.tmpbytesused 0
        vd.tmptimestamp no_frame p.unstamped
        (subst (λ n. AllWhole s.minimum_size n vd.framesize_in shots) (sym size) p.whole) in
    (
      run.0,
      ap (cam_loop jpeg s (map shot_of shots))
            (started jpeg vd s vd.framesize_in p.format p.undropped)
          ∙ run.1,
    )

-- A camera in JPEG mode publishes, under the option `every`, each picture whose number is a
-- multiple of it, completed and with its time, and no other: picture `j` of those published, from 0, is
-- picture `every - 1 + j * every` of those that the driver hands out. The thread neither ends nor
-- crashes. The conditions are those of `Plain`, and that `every` is not 0.
pub cam_thread-every :
    (jpeg : ℕ → List (List ℕ) → List ℕ) (vd : VdIn) (s : Settings) (shots : Shots)
    → Plain vd s shots
    → 1 ≤ s.every
    → (frames : List Frame) × (last : Camera) × (cam_thread jpeg s none true vd (map shot_of shots)
        ≡ turned frames last)
      × ((j : ℕ) → get_elem? frames j ≡ get_elem? (map taken_of shots) (s.every - 1 + j * s.every))
cam_thread-every jpeg vd s shots p once =
    let run = cam_thread-every_nth jpeg vd s shots p in
    (
      every_nth (s.every - 1) 0 shots,
      run.0,
      run.1,
      λ j.
          get_elem?-every_nth (s.every - 1) 0 shots j (omega arith)
          ∙ ap (get_elem? (map taken_of shots)) (place s.every j once),
    )

pub every_nth-Sublist :
    (k n : ℕ) (shots : Shots) → Sublistᴰ (every_nth k n shots) (map taken_of shots)
unfolding every_nth
every_nth-Sublist k n [] = slnil
every_nth-Sublist k n (p ∷ shots) = elim (Bool-cases (ltb n k)) [
  | inl pass ↦ rw pass (cons (every_nth-Sublist k (n + 1) shots))
  | inr take ↦ rw take (cons-cons refl (every_nth-Sublist k 0 shots))
]
