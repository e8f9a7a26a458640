-- ===== src/Uvc/Controls/Ranges.antt =====
-- v4l2SetControl keeps each control within its range.
use raspberry_car.Base.{
  ℕ, zero, suc, ◌≡◌, refl, Bool, true, false, ◌&&◌, List, [], ◌∷◌, Option, none, some,
  if◌then◌else◌, get_elem?, set, All, Option-cases, inl, inr,
}
use raspberry_car.Base.Int.{ℤ}
use raspberry_car.Uvc.Controls.{
  Parameter, value_set, DriverCall, s_ctrl, s_ext_ctrls, Reply, find_control, leb_ℤ, set_as,
  set_found, set_at, v4l2_set_control,
}

abbrev pub Between : Parameter → ℤ → Type 0
Between p v = (leb_ℤ p.minimum v ≡ true) × (leb_ℤ v p.maximum ≡ true)

-- A control of the class USER holds a value in its range.
abbrev pub IsValidAs : Bool → Parameter → Type 0
IsValidAs true p = Between p p.value
IsValidAs false p = Unit {0}

abbrev pub IsValid : Parameter → Type 0
IsValid p = IsValidAs p.user p

-- A call for one control goes to one of that class in the list, with a value in its range; the call
-- for extended controls only to one in the list of another class.
abbrev pub Allowed : List Parameter → DriverCall → Type 0
Allowed ps (s_ctrl id v) =
    (i : ℕ) × (p : Parameter) × (get_elem? ps i ≡ some p)
    × (p.id ≡ id)
    × (p.user ≡ true)
    × Between p v
Allowed ps (s_ext_ctrls id v) =
    (i : ℕ) × (p : Parameter) × (get_elem? ps i ≡ some p) × (p.id ≡ id) × (p.user ≡ false)

abbrev pub Safe : List Parameter → Reply → Type 0
Safe ps r = All IsValid r.parameters × All (Allowed ps) r.calls

All-set :
    (ps : List Parameter) (i : ℕ) (p : Parameter)
    → All IsValid ps
    → IsValid p
    → All IsValid (set ps i p)
All-set [] i p h k = tt
All-set (q ∷ ps) zero p h k = (k, h.1)
All-set (q ∷ ps) (suc i) p h k = (h.0, All-set ps i p h.1 k)

both-true : (a b : Bool) → a && b ≡ true → (a ≡ true) × (b ≡ true)
both-true true b h = (refl, h)
both-true false b h = cc

IsValid-value_set : (v : ℤ) (p : Parameter) → Between p v → IsValid (value_set v p)
IsValid-value_set v p h = elim p.user as (λ b. IsValidAs b (value_set v p)) [
  | true ↦ h
  | false ↦ tt
]

stored-All :
    (sets : Bool) (ps : List Parameter) (i : ℕ) (p : Parameter)
    → All IsValid ps
    → IsValid p
    → All IsValid (if sets then set ps i p else ps)
stored-All true ps i p h k = All-set ps i p h k
stored-All false ps i p h k = h

set_as-Safe :
    (user in_range sets : Bool) (value : ℤ) (i : ℕ) (p : Parameter) (ps : List Parameter)
    → p.user ≡ user
    → leb_ℤ p.minimum value && leb_ℤ value p.maximum ≡ in_range
    → get_elem? ps i ≡ some p
    → All IsValid ps
    → Safe ps (set_as user in_range sets value i p ps)
unfolding set_as
set_as-Safe true true sets value i p ps user within at h =
    let between = both-true (leb_ℤ p.minimum value) (leb_ℤ value p.maximum) within in
    (
      stored-All sets ps i (value_set value p) h (IsValid-value_set value p between),
      ((i, p, at, refl, user, between), tt),
    )
set_as-Safe true false sets value i p ps user out at h = (h, tt)
set_as-Safe false in_range sets value i p ps user within at h = (h, ((i, p, at, refl, user), tt))

set_at-Safe :
    (sets : Bool) (value : ℤ) (ps : List Parameter) (i : ℕ) (found : Option Parameter)
    → get_elem? ps i ≡ found
    → All IsValid ps
    → Safe ps (set_at sets value ps i found)
unfolding set_at set_found
set_at-Safe sets value ps i none at h = (h, tt)
set_at-Safe sets value ps i (some p) at h =
    set_as-Safe p.user (leb_ℤ p.minimum value && leb_ℤ value p.maximum) sets value i p ps refl refl
      at h

-- v4l2SetControl by itself (not the command that calls it, which stores a value of its own behind
-- it), whatever control and value it is called with and whatever the driver answers, leaves each
-- control of the class USER with a value in its range, if that held before. The driver is asked only
-- for controls of the list: with VIDIOC_S_CTRL for one of the class USER, with a value in its range,
-- and with VIDIOC_S_EXT_CTRLS for one of another class, with any value.
pub v4l2_set_control-Safe :
    (sets : Bool) (id : ℕ) (value : ℤ) (ps : List Parameter)
    → All IsValid ps
    → All IsValid (v4l2_set_control sets id value ps).parameters
      × All (Allowed ps) (v4l2_set_control sets id value ps).calls
unfolding v4l2_set_control
v4l2_set_control-Safe sets id value ps h = elim (Option-cases (find_control id 0 ps)) [
  | inl none_ ↦ rw (none_, v4l2_set_control) (h, tt)
  | inr some_ ↦
      rw (some_.1, v4l2_set_control)
        (set_at-Safe sets value ps some_.0 (get_elem? ps some_.0) refl h)
]
