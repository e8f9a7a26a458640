-- ===== src/Uvc/Pixels.antt =====
-- jpeg_utils.c: the rows of samples that compress_image_to_jpeg hands to the compressor.
pub mod Rows
pub mod Swap
use Prim.Native.Nat.{bit_and}
use raspberry_car.Base.{
  ℕ, zero, suc, ◌+◌, ◌*◌, ◌/◌, ◌%◌, Bool, true, false, not, List, [], ◌∷◌, ◌++◌, Option, none, some,
  ltb, if◌then◌else◌,
}
use raspberry_car.Base.Int.{ℤ, pos, negsuc, sub_ℕ, ◌+ℤ◌, ◌-ℤ◌, ◌*ℤ◌}

-- `vd->formatIn`; the other formats lead to no rows.
pub data Format : Type 0 where
  yuyv rgb24 rgb565 uyvy other : Format

-- `>> 8`, towards minus infinity.
unfoldable pub shift_8 : ℤ → ℤ
shift_8 (pos n) = pos (n / 256)
shift_8 (negsuc n) = negsuc (n / 256)

-- `(r > 255) ? 255 : ((r < 0) ? 0 : r)`
unfoldable pub clamp : ℤ → ℕ
clamp (pos n) = if ltb 255 n then 255 else n
clamp (negsuc n) = 0

-- The red, green and blue of a pixel, of the bytes y, u and v, before they are clamped.
unfoldable pub red : ℕ → ℕ → ℕ → ℤ
unfolding ◌+ℤ◌ ◌*ℤ◌ shift_8
red y u v = shift_8 (pos (y * 256) +ℤ pos 359 *ℤ sub_ℕ v 128)

unfoldable pub green : ℕ → ℕ → ℕ → ℤ
unfolding ◌-ℤ◌ ◌*ℤ◌ shift_8
green y u v = shift_8 (pos (y * 256) -ℤ pos 88 *ℤ sub_ℕ u 128 -ℤ pos 183 *ℤ sub_ℕ v 128)

unfoldable pub blue : ℕ → ℕ → ℕ → ℤ
unfolding ◌+ℤ◌ ◌*ℤ◌ shift_8
blue y u v = shift_8 (pos (y * 256) +ℤ pos 454 *ℤ sub_ℕ u 128)

unfoldable pub rgb_of : ℕ → ℕ → ℕ → List ℕ
unfolding red green blue clamp
rgb_of y u v = clamp (red y u v) ∷ clamp (green y u v) ∷ clamp (blue y u v) ∷ []

-- Where `yuyv` stands behind a pixel: the memory from there on, and `z`.
abbrev pub Cursor : Type 0
Cursor = Bool × List ℕ

abbrev pub Pixel : Type 0
Pixel = Option (List ℕ × Cursor)

-- The second pixel of a group of four bytes moves on.
abbrev pub moved_on : Bool → List ℕ → List ℕ → Cursor
moved_on z mem rest = (not z, if z then rest else mem)

-- A pixel of a format; `none` is a read outside the memory.
unfoldable pub pixel : Format → Cursor → Pixel
unfolding rgb_of
pixel yuyv (z, a ∷ b ∷ c ∷ d ∷ rest) =
    some (rgb_of (if z then c else a) b d, moved_on z (a ∷ b ∷ c ∷ d ∷ rest) rest)
pixel uyvy (z, a ∷ b ∷ c ∷ d ∷ rest) =
    some (rgb_of (if z then d else b) a c, moved_on z (a ∷ b ∷ c ∷ d ∷ rest) rest)
pixel rgb24 (z, a ∷ b ∷ c ∷ rest) = some (a ∷ b ∷ c ∷ [], (z, rest))
pixel rgb565 (z, a ∷ b ∷ rest) =
    some (bit_and 248 b ∷ bit_and 2016 (b * 256 + a) / 8 % 256 ∷ bit_and 31 a * 8 ∷ [], (z, rest))
pixel f cursor = none

-- The loop over a row of `x` pixels.
unfoldable pub row : Format → ℕ → Cursor → Pixel
unfolding pixel
row f zero cursor = some ([], cursor)
row f (suc x) cursor = elim (pixel f cursor) [
  | none ↦ none
  | some (samples, next) ↦ elim (row f x next) [
    | none ↦ none
    | some (more, last) ↦ some (samples ++ more, last)
  ]
]

-- The loop over `height` rows: the calls of `jpeg_write_scanlines`, which count the rows.
unfoldable pub rows : Format → ℕ → ℕ → Cursor → Option (List (List ℕ))
unfolding row
rows f width zero cursor = some []
rows f width (suc height) cursor = elim (row f width cursor) [
  | none ↦ none
  | some (samples, next) ↦ elim (rows f width height next) [
    | none ↦ none
    | some more ↦ some (samples ∷ more)
  ]
]

-- The rows of the picture in `framebuffer`.
unfoldable pub scanlines : Format → ℕ → ℕ → List ℕ → Option (List (List ℕ))
unfolding rows
scanlines other width height framebuffer = some []
scanlines f width height framebuffer = rows f width height (false, framebuffer)
