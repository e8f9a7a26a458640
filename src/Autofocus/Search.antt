-- ===== src/Autofocus/Search.antt =====
-- The focus stays in its range, a search ends, and ends at the sharpest place that it has seen.
use raspberry_car.Base.{
  ℕ, ◌+◌, ◌-◌, ◌/◌, ◌≤◌, ◌<◌, ◌≡◌, refl, true, false, List, [], ◌∷◌, ◌++◌, some, All, leb, length,
  arith,
}
use raspberry_car.Autofocus.{Sharpness, Focus, frame_capacity, adjust, worker_thread}

-- Between two frames the places are those of the camera's control.
pub record InRange {V : Type 0} (s : Focus V) : Type 0 where
  pub focus_in : s.focus ≤ 255
  pub max_focus_in : s.max_focus ≤ 255

module _ {V : Type 0} (sharp : Sharpness V) where
  adjust-InRange : (sv : V) (s : Focus V) → InRange s → InRange (adjust sharp sv s)
  unfolding adjust
  adjust-InRange sv s h = ground arith

  -- While the worker runs, whatever frames it sees (of at most 256 KiB each, so that no frame is
  -- written past the end of its buffer), the place of the focus and the best place are at most 255.
  pub worker_thread-InRange :
      (images : List (List ℕ)) (s : Focus V)
      → All (λ (image : List ℕ). length image ≤ frame_capacity) images
      → InRange s
      → (t : Focus V) × (worker_thread sharp images s ≡ some t) × InRange t
  unfolding worker_thread
  worker_thread-InRange [] s h r = (s, refl, r)
  worker_thread-InRange (image ∷ images) s h r =
      let next = adjust-InRange (sharp.measure image) s r in
      let fits : leb (length image) frame_capacity ≡ true = ground (arith, h.0) in
      rw fits (worker_thread-InRange images (adjust sharp (sharp.measure image) s) h.1 next)

-- The state after frames of these sharpnesses.
abbrev pub after : {V : Type 0} → Sharpness V → List V → Focus V → Focus V
after sharp [] s = s
after sharp (sv ∷ svs) s = after sharp svs (adjust sharp sv s)

module _ {V : Type 0} (sharp : Sharpness V) where
  adjust_last :
      (sv : V) (s : Focus V)
      → s.search_focus ≡ true
      → s.focus ≡ 0
      → adjust sharp sv s ≡ record s { focus = s.max_focus; search_focus = false }
  unfolding adjust
  adjust_last sv s h e = ground arith

  adjust_on :
      (sv : V) (s : Focus V)
      → s.search_focus ≡ true
      → 0 < s.focus
      → s.focus ≤ 255
      → ((adjust sharp sv s).search_focus ≡ true) × ((adjust sharp sv s).focus ≡ s.focus - 10)
  unfolding adjust
  adjust_on sv s h p q = ground arith

  -- A search that stands at some place takes a frame for every ten places down to 0 (rounded up), and
  -- goes on at each of them, whatever the frames; with the frame after those it is over, and the
  -- focus goes to the best place found. From 255 these are 26 frames and one.
  pub search_ends :
      (svs : List V) (last : V) (s : Focus V)
      → s.search_focus ≡ true
      → s.focus ≤ 255
      → length svs ≡ (s.focus + 9) / 10
      → ((after sharp svs s).search_focus ≡ true)
        × ((after sharp (svs ++ last ∷ []) s).search_focus ≡ false)
        × ((after sharp (svs ++ last ∷ []) s).focus ≡ (after sharp svs s).max_focus)
  search_ends [] last s h q e = let k = adjust_last last s h (omega (arith, e)) in (h, rw k, rw k)
  search_ends (sv ∷ svs) last s h q e =
      let on = adjust_on sv s h (omega (arith, e)) q in
      search_ends svs last (adjust sharp sv s) on.0 (omega (arith, on.1)) (omega (arith, on.1, e))
