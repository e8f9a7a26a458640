-- ===== src/Uvc/Pixels/Rows.antt =====
-- A picture of the right size leads to its rows, whole, and to no read outside it.
use Prim.Native.Nat.{bit_and, bit_and-bitwise}
use native.Mathlib.Nat.{suc-mul, add_comm}
use raspberry_car.Base.{
  ℕ, zero, suc, ◌+◌, ◌*◌, ◌/◌, ◌%◌, ◌<◌, ◌≤◌, ◌≡◌, refl, ◌∙◌, subst, Bool, true, false, List, [],
  ◌∷◌, ◌++◌, some, All, length, length-append, arith,
}
use raspberry_car.Base.Int.{ℤ, pos, negsuc}
use raspberry_car.Uvc.Pixels.{
  Format, yuyv, rgb24, rgb565, uyvy, other, clamp, red, green, blue, rgb_of, Cursor, Pixel, pixel,
  row, rows, scanlines,
}

abbrev pub IsByte : ℕ → Type 0
IsByte b = b < 256

clamp-IsByte : (n : ℤ) → IsByte (clamp n)
unfolding clamp
clamp-IsByte (pos n) = ground arith
clamp-IsByte (negsuc n) = omega arith

rgb_of-IsByte : (y u v : ℕ) → All IsByte (rgb_of y u v)
unfolding rgb_of
rgb_of-IsByte y u v =
    (clamp-IsByte (red y u v), (clamp-IsByte (green y u v), (clamp-IsByte (blue y u v), tt)))

length-rgb_of : (y u v : ℕ) → length (rgb_of y u v) ≡ 3
unfolding rgb_of
length-rgb_of y u v = refl

bit_and-IsByte : (b : ℕ) → IsByte (bit_and 248 b)
bit_and-IsByte b = omega (arith, bit_and-bitwise 248 b)

bit_and_31 : (a : ℕ) → bit_and 31 a < 32
bit_and_31 a = omega (arith, bit_and-bitwise 31 a)

-- The memory that a format needs for `left` more pixels, and the place in its group of two.
abbrev pub Enough : Format → ℕ → Bool → List ℕ → Type 0
Enough yuyv left false mem = (2 * left ≤ length mem) × (left % 2 ≡ 0)
Enough yuyv left true mem = (2 * left + 2 ≤ length mem) × (left % 2 ≡ 1)
Enough uyvy left false mem = (2 * left ≤ length mem) × (left % 2 ≡ 0)
Enough uyvy left true mem = (2 * left + 2 ≤ length mem) × (left % 2 ≡ 1)
Enough rgb24 left z mem = 3 * left ≤ length mem
Enough rgb565 left z mem = 2 * left ≤ length mem
Enough other left z mem = ⊥

abbrev pub Ready : Format → ℕ → Cursor → Type 0
Ready f left (z, mem) = Enough f left z mem × All IsByte mem

-- `n` pixels were read, and there is enough for `left` more.
record Done (f : Format) (n left : ℕ) (r : Pixel) : Type 0 where
  samples : List ℕ
  next : Cursor
  run : r ≡ some (samples, next)
  size : length samples ≡ 3 * n
  bytes : All IsByte samples
  ready : Ready f left next

pixel_of :
    {f : Format} {left : ℕ} (samples : List ℕ) (next : Cursor)
    → length samples ≡ 3
    → All IsByte samples
    → Ready f left next
    → Done f 1 left (some (samples, next))
pixel_of samples next size bytes ready = record {
  samples = samples;
  next = next;
  run = refl;
  size = size;
  bytes = bytes;
  ready = ready;
}

pixel-Done :
    (f : Format) (left : ℕ) (z : Bool) (mem : List ℕ)
    → Ready f (suc left) (z, mem)
    → Done f 1 left (pixel f (z, mem))
unfolding pixel
pixel-Done yuyv left false [] h = absurd (omega (arith, h.0))
pixel-Done yuyv left false (a ∷ []) h = absurd (omega (arith, h.0))
pixel-Done yuyv left false (a ∷ b ∷ []) h = absurd (omega (arith, h.0))
pixel-Done yuyv left false (a ∷ b ∷ c ∷ []) h = absurd (omega (arith, h.0))
pixel-Done yuyv left false (a ∷ b ∷ c ∷ d ∷ rest) h =
    pixel_of (rgb_of a b d) (true, a ∷ b ∷ c ∷ d ∷ rest) (length-rgb_of a b d) (rgb_of-IsByte a b d)
      (omega (arith, h.0), h.1)
pixel-Done yuyv left true [] h = absurd (omega (arith, h.0))
pixel-Done yuyv left true (a ∷ []) h = absurd (omega (arith, h.0))
pixel-Done yuyv left true (a ∷ b ∷ []) h = absurd (omega (arith, h.0))
pixel-Done yuyv left true (a ∷ b ∷ c ∷ []) h = absurd (omega (arith, h.0))
pixel-Done yuyv left true (a ∷ b ∷ c ∷ d ∷ rest) h =
    pixel_of (rgb_of c b d) (false, rest) (length-rgb_of c b d) (rgb_of-IsByte c b d)
      (omega (arith, h.0), h.1.1.1.1.1)
pixel-Done uyvy left false [] h = absurd (omega (arith, h.0))
pixel-Done uyvy left false (a ∷ []) h = absurd (omega (arith, h.0))
pixel-Done uyvy left false (a ∷ b ∷ []) h = absurd (omega (arith, h.0))
pixel-Done uyvy left false (a ∷ b ∷ c ∷ []) h = absurd (omega (arith, h.0))
pixel-Done uyvy left false (a ∷ b ∷ c ∷ d ∷ rest) h =
    pixel_of (rgb_of b a c) (true, a ∷ b ∷ c ∷ d ∷ rest) (length-rgb_of b a c) (rgb_of-IsByte b a c)
      (omega (arith, h.0), h.1)
pixel-Done uyvy left true [] h = absurd (omega (arith, h.0))
pixel-Done uyvy left true (a ∷ []) h = absurd (omega (arith, h.0))
pixel-Done uyvy left true (a ∷ b ∷ []) h = absurd (omega (arith, h.0))
pixel-Done uyvy left true (a ∷ b ∷ c ∷ []) h = absurd (omega (arith, h.0))
pixel-Done uyvy left true (a ∷ b ∷ c ∷ d ∷ rest) h =
    pixel_of (rgb_of d a c) (false, rest) (length-rgb_of d a c) (rgb_of-IsByte d a c)
      (omega (arith, h.0), h.1.1.1.1.1)
pixel-Done rgb24 left z [] h = absurd (omega (arith, h.0))
pixel-Done rgb24 left z (a ∷ []) h = absurd (omega (arith, h.0))
pixel-Done rgb24 left z (a ∷ b ∷ []) h = absurd (omega (arith, h.0))
pixel-Done rgb24 left z (a ∷ b ∷ c ∷ rest) h =
    pixel_of (a ∷ b ∷ c ∷ []) (z, rest) refl (h.1.0, (h.1.1.0, (h.1.1.1.0, tt)))
      (omega (arith, h.0), h.1.1.1.1)
pixel-Done rgb565 left z [] h = absurd (omega (arith, h.0))
pixel-Done rgb565 left z (a ∷ []) h = absurd (omega (arith, h.0))
pixel-Done rgb565 left z (a ∷ b ∷ rest) h =
    pixel_of (bit_and 248 b ∷ bit_and 2016 (b * 256 + a) / 8 % 256 ∷ bit_and 31 a * 8 ∷ [])
      (z, rest) refl (bit_and-IsByte b, (omega arith, (omega (arith, bit_and_31 a), tt)))
      (omega (arith, h.0), h.1.1.1)
pixel-Done other left z mem h = absurd h.0

All-append-IsByte : (xs ys : List ℕ) → All IsByte xs → All IsByte ys → All IsByte (xs ++ ys)
All-append-IsByte [] ys h k = k
All-append-IsByte (x ∷ xs) ys h k = (h.0, All-append-IsByte xs ys h.1 k)

row_step :
    (f : Format) (x : ℕ) (cursor next last : Cursor) (samples more : List ℕ)
    → pixel f cursor ≡ some (samples, next)
    → row f x next ≡ some (more, last)
    → row f (suc x) cursor ≡ some (samples ++ more, last)
unfolding row
row_step f x cursor next last samples more e k = rw (row, e, k)

row-Done :
    (f : Format) (x left : ℕ) (cursor : Cursor)
    → Ready f (x + left) cursor
    → Done f x left (row f x cursor)
unfolding row
row-Done f zero left cursor h = record {
  samples = [];
  next = cursor;
  run = refl;
  size = refl;
  bytes = tt;
  ready = subst (λ (n : ℕ). Ready f n cursor) (zero_add left) h;
}
  where
    zero_add : (n : ℕ) → 0 + n ≡ n
    zero_add n = omega arith
row-Done f (suc x) left (z, mem) h =
    let p = pixel-Done f (x + left) z mem (subst (λ (n : ℕ). Ready f n (z, mem)) shift h) in
    let r = row-Done f x left p.next p.ready in
    record {
      samples = p.samples ++ r.samples;
      next = r.next;
      run = row_step f x (z, mem) p.next r.next p.samples r.samples p.run r.run;
      size = omega (arith, length-append p.samples r.samples, p.size, r.size);
      bytes = All-append-IsByte p.samples r.samples p.bytes r.bytes;
      ready = r.ready;
    }
  where
    shift : suc x + left ≡ suc (x + left)
    shift = omega arith

-- A row of the picture: its samples are bytes, three for each pixel.
abbrev pub IsRow : ℕ → List ℕ → Type 0
IsRow width samples = (length samples ≡ 3 * width) × All IsByte samples

rows_step :
    (f : Format) (width height : ℕ) (cursor next : Cursor) (samples : List ℕ) (more : List (List ℕ))
    → row f width cursor ≡ some (samples, next)
    → rows f width height next ≡ some more
    → rows f width (suc height) cursor ≡ some (samples ∷ more)
unfolding rows
rows_step f width height cursor next samples more e k = rw (rows, e, k)

rows-IsRow :
    (f : Format) (width height : ℕ) (cursor : Cursor)
    → Ready f (height * width) cursor
    → (picture : List (List ℕ)) × (rows f width height cursor ≡ some picture)
      × (length picture ≡ height)
      × All (IsRow width) picture
unfolding rows
rows-IsRow f width zero cursor h = ([], refl, refl, tt)
rows-IsRow f width (suc height) cursor h =
    let r =
      row-Done f width (height * width) cursor
        (subst (λ (n : ℕ). Ready f n cursor) (row_and_rest height width) h) in
    let (picture, run, size, all) = rows-IsRow f width height r.next r.ready in
    (
      r.samples ∷ picture,
      rows_step f width height cursor r.next r.samples picture r.run run,
      omega (arith, size),
      ((r.size, r.bytes), all),
    )
  where
    row_and_rest : (n m : ℕ) → suc n * m ≡ m + n * m
    row_and_rest n m = suc-mul n m ∙ add_comm (n * m) m

-- A picture in one of the four formats, of bytes and as large as its width and height say (with an
-- even number of pixels where two of them share four bytes), is read without leaving its memory,
-- and every one of its rows reaches the compressor, with three samples, bytes all, for each pixel.
pub scanlines-IsRow :
    (f : Format) (width height : ℕ) (framebuffer : List ℕ)
    → Enough f (height * width) false framebuffer
    → All IsByte framebuffer
    → (picture : List (List ℕ)) × (scanlines f width height framebuffer ≡ some picture)
      × (length picture ≡ height)
      × All (IsRow width) picture
unfolding scanlines
scanlines-IsRow yuyv width height mem h k = rows-IsRow yuyv width height (false, mem) (h, k)
scanlines-IsRow uyvy width height mem h k = rows-IsRow uyvy width height (false, mem) (h, k)
scanlines-IsRow rgb24 width height mem h k = rows-IsRow rgb24 width height (false, mem) (h, k)
scanlines-IsRow rgb565 width height mem h k = rows-IsRow rgb565 width height (false, mem) (h, k)
scanlines-IsRow other width height mem h k = absurd h
