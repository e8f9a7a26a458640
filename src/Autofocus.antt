-- ===== src/Autofocus.antt =====
-- output_autofocus.c: the search for the sharpest focus, a step for each frame.
pub mod Search
pub mod Best
pub mod Tests
use raspberry_car.Base.{
  ℕ, zero, suc, ◌-◌, min, Bool, true, false, not, ◌||◌, ◌&&◌, List, [], ◌∷◌, Option, none, some,
  ltb, leb, if◌then◌else◌, length,
}
use raspberry_car.Base.Int.{ℤ, pos, negsuc, sub_ℕ}

-- The values of `double` and what the worker does with them: `getFrameSharpnessValue` of a frame, the tests
-- `sv > max_sv` and `ABS(sv - max_sv) > delta`, and the constants 100.0 and -1.0.
pub record Sharpness (V : Type 0) : Type 0 where
  pub measure : List ℕ → V
  pub above : V → V → Bool
  pub far : V → V → Bool
  pub hundred : V
  pub minus_one : V

-- The local variables of the worker that outlive a frame. `focus` is never negative, since it starts at 255
-- and is clamped where it is set, so it is a ℕ.
pub record Focus (V : Type 0) : Type 0 where
  pub max_sv : V
  pub focus : ℕ
  pub max_focus : ℕ
  pub search_focus : Bool

abbrev pub step_size : ℕ
step_size = 10

-- The bytes that `frame` has.
abbrev pub frame_capacity : ℕ
frame_capacity = 262144

-- `MIN(MAX(n, 0), 255)`
unfoldable pub clamp_focus : ℤ → ℕ
clamp_focus (pos n) = min n 255
clamp_focus (negsuc n) = 0

module _ {V : Type 0} (sharp : Sharpness V) where
  unfoldable pub first_focus : Focus V
  first_focus = record { max_sv = sharp.hundred; focus = 255; max_focus = 100; search_focus = true }

  -- `if(!search_focus)`: the sharpness has changed, so the search starts again.
  abbrev pub restart : Focus V → Focus V
  restart s =
      if s.search_focus
      then s
      else record { max_sv = sharp.minus_one; focus = 255; max_focus = 255; search_focus = true }

  -- `if(focus <= 0)`: every place was tried.
  abbrev pub finish_search : Focus V → Focus V
  finish_search s =
      if leb s.focus 0 then record s { focus = s.max_focus; search_focus = false } else s

  -- `if(sv > max_sv)`
  abbrev pub better : V → Focus V → Focus V
  better sv s = if sharp.above sv s.max_sv then record s { max_focus = s.focus; max_sv = sv } else s

  -- `if(search_focus)`
  abbrev pub advance : V → Focus V → Focus V
  advance sv s =
      if s.search_focus
      then (let t = better sv s in record t { focus = clamp_focus (sub_ℕ t.focus step_size) })
      else s

  -- The state after a frame of sharpness `sv`.
  unfoldable pub adjust : V → Focus V → Focus V
  unfolding clamp_focus
  adjust sv s =
      if s.search_focus || sharp.far sv s.max_sv then advance sv (finish_search (restart s)) else s

  -- The loop of the worker over the frames that it sees; `none` is a frame that `memcpy` writes past
  -- the end of the buffer.
  unfoldable pub worker_thread : List (List ℕ) → Focus V → Option (Focus V)
  unfolding adjust
  worker_thread [] s = some s
  worker_thread (image ∷ images) s =
      let rest = worker_thread images (adjust (sharp.measure image) s) in
      if leb (length image) frame_capacity then rest else none
