-- ===== src/Uvc/Controls.antt =====
-- plugins/input_uvc: the controls of the camera (v4l2SetControl of v4l2uvc.c) and the commands that
-- the input plugin takes (input_cmd of input_uvc.c).
pub mod Ranges
pub mod Commands
pub mod Tests
use raspberry_car.Base.{
  ℕ, zero, suc, ◌+◌, ◌-◌, ◌%◌, Bool, true, false, not, ◌&&◌, ◌||◌, List, [], ◌∷◌, Option, none,
  some, ltb, ◌==◌, if◌then◌else◌, get_elem?, set, length,
}
use raspberry_car.Base.Int.{ℤ, pos, negsuc, ltb_ℤ}
use raspberry_car.Http.Json.Input.{Resolution}
use raspberry_car.Uvc.Device.{VdIn, Result, ok, failed, trapped}
use raspberry_car.Uvc.Device.Setup.{Change, set_resolution}

-- `struct _control`, as far as the operations read it; `user` says whether `class_id` is
-- V4L2_CTRL_CLASS_USER.
pub record Parameter : Type 0 where
  pub id : ℕ
  pub user : Bool
  pub minimum : ℤ
  pub maximum : ℤ
  pub group : ℕ
  pub value : ℤ

abbrev pub value_set : ℤ → Parameter → Parameter
value_set v p = record p { value = v }

-- A call of the driver: VIDIOC_S_CTRL or VIDIOC_S_EXT_CTRLS, with the id and the value.
pub data DriverCall : Type 0 where
  s_ctrl : ℕ → ℤ → DriverCall
  s_ext_ctrls : ℕ → ℤ → DriverCall

-- Whether a function returns 0, the controls behind it, and its calls of the driver.
pub record Reply : Type 0 where
  pub ret : Bool
  pub parameters : List Parameter
  pub calls : List DriverCall

-- The loop that looks for a control, from position `i` on.
unfoldable pub find_control : ℕ → ℕ → List Parameter → Option ℕ
find_control id i [] = none
find_control id i (p ∷ ps) =
    let later = find_control id (i + 1) ps in if p.id == id then some i else later

-- `a <= b`
abbrev pub leb_ℤ : ℤ → ℤ → Bool
leb_ℤ a b = not (ltb_ℤ b a)

-- A control that was found, by its class and whether the value is in its range; `sets` says whether
-- the driver takes the value.
unfoldable pub set_as : Bool → Bool → Bool → ℤ → ℕ → Parameter → List Parameter → Reply
set_as true true sets value i p ps = record {
  ret = sets;
  parameters = if sets then set ps i (value_set value p) else ps;
  calls = s_ctrl p.id value ∷ [];
}
set_as true false sets value i p ps = record { ret = true; parameters = ps; calls = [] }
set_as false in_range sets value i p ps = record {
  ret = sets;
  parameters = ps;
  calls = s_ext_ctrls p.id value ∷ [];
}

unfoldable pub set_found : Bool → ℤ → ℕ → Parameter → List Parameter → Reply
unfolding set_as
set_found sets value i p ps =
    set_as p.user (leb_ℤ p.minimum value && leb_ℤ value p.maximum) sets value i p ps

unfoldable pub set_at : Bool → ℤ → List Parameter → ℕ → Option Parameter → Reply
unfolding set_found
set_at sets value ps i none = record { ret = false; parameters = ps; calls = [] }
set_at sets value ps i (some p) = set_found sets value i p ps

unfoldable pub v4l2_set_control : Bool → ℕ → ℤ → List Parameter → Reply
unfolding find_control set_at
v4l2_set_control sets id value ps = elim (find_control id 0 ps) [
  | none ↦ record { ret = false; parameters = ps; calls = [] }
  | some i ↦ set_at sets value ps i (get_elem? ps i)
]

-- The input plugin: its controls, its device, the resolutions of the current format and the number
-- of the current one, and the quality of the compression.
pub record InputPlugin : Type 0 where
  pub parameters : List Parameter
  pub vd : VdIn
  pub resolutions : List Resolution
  pub current_resolution : ℤ
  pub quality : ℤ

pub data Group : Type 0 where
  generic v4l2 resolution jpeg_quality others : Group

-- What the driver answers: to a new value, to a change of the resolution, and whether the call for a
-- new quality returns anything but EINVAL; and whether the machine's `char` is signed.
pub record Answers : Type 0 where
  pub sets : Bool
  pub change : Change
  pub compresses : Bool
  pub is_signed : Bool

-- What a command comes to: whether it returns 0, the plugin behind it and the calls of the driver
-- that set controls; or something that C leaves undefined.
pub data Done : Type 0 where
  done : Bool → InputPlugin → List DriverCall → Done
  undefined : Done

unfoldable pub has_generic : ℕ → List Parameter → Bool
has_generic id [] = false
has_generic id (p ∷ ps) =
    let later = has_generic id ps in if p.id == id && p.group == 0 then true else later

-- `in_parameters[i].value = value`, where `i` is 0.
unfoldable pub first_set : ℤ → List Parameter → List Parameter
first_set value [] = []
first_set value (p ∷ ps) = value_set value p ∷ ps

-- The conversion of an index to the `char` that `currentResolution` is, which is signed on some
-- machines and unsigned on others (on ARM).
unfoldable pub to_char : Bool → ℕ → ℤ
to_char is_signed n =
    if ltb (n % 256) 128 || not is_signed then pos (n % 256) else negsuc (255 - n % 256)

unfoldable pub resized : Bool → ℕ → Result → InputPlugin → Done
unfolding to_char
resized is_signed n (ok vd) in_ =
    done true (record in_ { vd = vd; current_resolution = to_char is_signed n }) []
resized is_signed n (failed vd) in_ = done false (record in_ { vd = vd }) []
resized is_signed n trapped in_ = undefined

-- `none` is a read outside the array.
unfoldable pub resize_to : Answers → ℕ → Option Resolution → InputPlugin → Done
unfolding resized set_resolution
resize_to a n none in_ = undefined
resize_to a n (some r) in_ =
    resized a.is_signed n (set_resolution a.change r.width r.height in_.vd) in_

unfoldable pub set_size : Answers → ℤ → InputPlugin → Done
unfolding resize_to
set_size a (pos n) in_ =
    if ltb n (length in_.resolutions)
    then resize_to a n (get_elem? in_.resolutions n) in_
    else done false in_ []
-- A negative number passes the test, and is an index.
set_size a (negsuc n) in_ = undefined

unfoldable pub set_quality : Bool → ℤ → InputPlugin → Done
set_quality compresses (pos n) in_ =
    if ltb n 101 then done compresses (record in_ { quality = pos n }) [] else done false in_ []
set_quality compresses (negsuc n) in_ = done false in_ []

unfoldable pub v4l2_command : ℤ → Reply → InputPlugin → Done
unfolding first_set
v4l2_command value r in_ =
    let ps = if r.ret then first_set value r.parameters else r.parameters in
    done r.ret (record in_ { parameters = ps }) r.calls

unfoldable pub input_cmd : Answers → Group → ℕ → ℤ → InputPlugin → Done
unfolding has_generic v4l2_set_control v4l2_command set_size set_quality
input_cmd a generic id value in_ = done (has_generic id in_.parameters) in_ []
input_cmd a v4l2 id value in_ =
    v4l2_command value (v4l2_set_control a.sets id value in_.parameters) in_
input_cmd a resolution id value in_ = set_size a value in_
input_cmd a jpeg_quality id value in_ = set_quality a.compresses value in_
input_cmd a others id value in_ = done false in_ []
