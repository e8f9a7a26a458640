-- ===== src/Uvc/Controls/Commands.antt =====
-- input_cmd: what the commands leave behind.
use raspberry_car.Base.{
  ℕ, suc, ◌+◌, ◌<◌, ◌≡◌, ◌⊎◌, refl, Bool, true, false, ltb, get_elem?-lt, length, Bool-cases, inl,
  inr, arith,
}
use raspberry_car.Base.Int.{ℤ, pos, negsuc, ltb_ℤ}
use raspberry_car.Uvc.Device.{streaming_on, streaming_paused, Result, ok, failed, trapped}
use raspberry_car.Uvc.Device.Setup.{set_resolution}
use raspberry_car.Uvc.Device.Sizes.{IsSized, Changed, set_resolution-Changed}
use raspberry_car.Uvc.Controls.{
  InputPlugin, resolution, Answers, Done, done, undefined, to_char, resized, resize_to, set_size,
  input_cmd,
}

-- What a command for a resolution leaves.
abbrev pub Resized : Bool → ℤ → InputPlugin → Done → Type 0
Resized is_signed value in_ (done true after calls) =
    (n : ℕ) × (value ≡ pos n)
    × (n < length in_.resolutions)
    × (after.vd.streaming_state ≡ streaming_on)
    × IsSized after.vd
    × (after.current_resolution ≡ to_char is_signed n)
Resized is_signed value in_ (done false after calls) =
    (after.current_resolution ≡ in_.current_resolution)
    × ((after.vd ≡ in_.vd) ⊎ (after.vd.streaming_state ≡ streaming_paused))
Resized is_signed value in_ undefined = (in_.vd.fps ≡ pos 0) ⊎ (ltb_ℤ value (pos 0) ≡ true)

resized-Resized :
    (b : Bool) (n : ℕ) (in_ : InputPlugin) (r : Result)
    → n < length in_.resolutions
    → Changed in_.vd.fps r
    → Resized b (pos n) in_ (resized b n r in_)
unfolding resized
resized-Resized b n in_ (ok vd) lt h = (n, refl, lt, h.0, h.1, refl)
resized-Resized b n in_ (failed vd) lt h = (refl, inr h)
resized-Resized b n in_ trapped lt h = inl h

-- A command for a resolution of the current format, by how it ends. It returns 0: the value is a
-- number of the table, the camera streams with buffers of the size that it needs, and the number is
-- stored as the machine's `char`, signed or not, holds it: from 128 or from 256 on, another number.
-- It fails: the number stored is the old one, and the device is untouched or paused. It does what C
-- leaves undefined only where the rate asked for is 0, or the value is negative.
pub input_cmd-Resized :
    (a : Answers) (id : ℕ) (value : ℤ) (in_ : InputPlugin)
    → Resized a.is_signed value in_ (input_cmd a resolution id value in_)
unfolding input_cmd set_size resize_to
input_cmd-Resized a id (negsuc n) in_ =
    let below : ltb 0 (0 + suc n) ≡ true = ground arith in inr below
input_cmd-Resized a id (pos n) in_ = elim (Bool-cases (ltb n (length in_.resolutions))) [
  | inr out ↦ rw (out, input_cmd) (refl, inl refl)
  | inl within ↦
      let lt : n < length in_.resolutions = ground arith in
      let r = get_elem?-lt in_.resolutions n lt in
      rw (within, r.1)
        (resized-Resized a.is_signed n in_ (set_resolution a.change r.0.width r.0.height in_.vd) lt
          (set_resolution-Changed a.change r.0.width r.0.height in_.vd))
]
