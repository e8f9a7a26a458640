-- ===== src/Uvc/Pixels/Swap.antt =====
-- The two orders of the bytes of a pixel, and gray pictures.
use raspberry_car.Base.{
  ℕ, zero, suc, ◌≡◌, ◌<◌, refl, Bool, true, false, List, [], ◌∷◌, none, some, inl, inr, arith,
  Option-cases,
}
use raspberry_car.Base.Int.{◌+ℤ◌, ◌-ℤ◌, ◌*ℤ◌}
use raspberry_car.Uvc.Pixels.{
  yuyv, uyvy, rgb_of, red, green, blue, shift_8, clamp, Pixel, pixel, row, rows, scanlines,
}

-- The bytes at even and odd places change places.
unfoldable pub swapped : List ℕ → List ℕ
swapped [] = []
swapped (a ∷ []) = a ∷ []
swapped (a ∷ b ∷ rest) = b ∷ a ∷ swapped rest

abbrev swapped_next : Pixel → Pixel
swapped_next none = none
swapped_next (some (samples, (z, mem))) = some (samples, (z, swapped mem))

pixel-swapped :
    (z : Bool) (mem : List ℕ) → pixel yuyv (z, swapped mem) ≡ swapped_next (pixel uyvy (z, mem))
unfolding pixel swapped
pixel-swapped z [] = refl
pixel-swapped z (a ∷ []) = refl
pixel-swapped z (a ∷ b ∷ []) = refl
pixel-swapped z (a ∷ b ∷ c ∷ []) = refl
pixel-swapped true (a ∷ b ∷ c ∷ d ∷ rest) = refl
pixel-swapped false (a ∷ b ∷ c ∷ d ∷ rest) = refl

row-swapped :
    (x : ℕ) (z : Bool) (mem : List ℕ)
    → row yuyv x (z, swapped mem) ≡ swapped_next (row uyvy x (z, mem))
unfolding row
row-swapped zero z mem = refl
row-swapped (suc x) z mem = elim (Option-cases (pixel uyvy (z, mem))) [
  | inl out ↦ rw (row, pixel-swapped z mem, out)
  | inr ((samples, (z', mem')), e) ↦ elim (Option-cases (row uyvy x (z', mem'))) [
    | inl out ↦ rw (row, pixel-swapped z mem, e, row-swapped x z' mem', out)
    | inr ((more, (z'', mem'')), k) ↦ rw (row, pixel-swapped z mem, e, row-swapped x z' mem', k)
  ]
]

rows-swapped :
    (width height : ℕ) (z : Bool) (mem : List ℕ)
    → rows yuyv width height (z, swapped mem) ≡ rows uyvy width height (z, mem)
unfolding rows
rows-swapped width zero z mem = refl
rows-swapped width (suc height) z mem = elim (Option-cases (row uyvy width (z, mem))) [
  | inl out ↦ rw (rows, row-swapped width z mem, out)
  | inr ((samples, (z', mem')), e) ↦
      rw (rows, row-swapped width z mem, e, rows-swapped width height z' mem')
]

-- A picture in the format UYVY leads to the same rows as the picture in the format YUYV that has the
-- two bytes of each pair exchanged; or to a read outside its memory like that one.
pub scanlines-swapped :
    (width height : ℕ) (framebuffer : List ℕ)
    → scanlines yuyv width height (swapped framebuffer) ≡ scanlines uyvy width height framebuffer
unfolding scanlines
scanlines-swapped width height framebuffer = rows-swapped width height false framebuffer

-- A pixel without colour (u and v are 128) keeps its brightness in all three samples, exactly.
pub rgb_of-gray : (y : ℕ) → y < 256 → rgb_of y 128 128 ≡ y ∷ y ∷ y ∷ []
unfolding rgb_of red green blue ◌+ℤ◌ ◌-ℤ◌ ◌*ℤ◌ shift_8 clamp
rgb_of-gray y h = ground arith
