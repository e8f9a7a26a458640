-- ===== src/Proxy/Header.antt =====
-- The end of the header: what the test for an empty line does, byte by byte.
use Prim.Native.Nat.{min, bit_and-bitwise, bit_and}
use raspberry_car.Base.{
  ℕ, ◌+◌, ◌*◌, ◌/◌, ◌%◌, ◌^◌, ◌<◌, ◌≡◌, refl, sym, ap, ◌∙◌, Bool, true, false, not, ltb, ◌&&◌, List,
  [], ◌∷◌, ◌==◌, arith,
}
use raspberry_car.Base.Masks.{min_zero, min_one}
use raspberry_car.Proxy.{push_byte, cr_lf, is_crlf, is_crlfcrlf}

-- The bits of a byte that the test asks of a carriage return, and of a line feed.
unfoldable pub like_cr : ℕ → Bool
like_cr b = bit_and 13 b == 13

unfoldable pub like_lf : ℕ → Bool
like_lf b = bit_and 10 b == 10

pub and-ten : (x : ℕ) → bit_and 10 x ≡ 2 * (x / 2 % 2) + 8 * (x / 8 % 2)
and-ten x = omega (arith, bit_and-bitwise 10 x)

pub and-thirteen : (x : ℕ) → bit_and 13 x ≡ x % 2 + 4 * (x / 4 % 2) + 8 * (x / 8 % 2)
and-thirteen x = omega (arith, bit_and-bitwise 13 x)

-- The upper byte is masked by 13, and the lower one by 10, digit by digit.
abbrev above : ℕ → ℕ → ℕ
above t x =
    ((((((((t * 2 + min 0 (x / 2 / 2 / 2 / 2 / 2 / 2 / 2 % 2)) * 2
                              + min 0 (x / 2 / 2 / 2 / 2 / 2 / 2 % 2))
                            * 2
                          + min 0 (x / 2 / 2 / 2 / 2 / 2 % 2))
                        * 2
                      + min 0 (x / 2 / 2 / 2 / 2 % 2))
                    * 2
                  + min 1 (x / 2 / 2 / 2 % 2))
                * 2
              + min 0 (x / 2 / 2 % 2))
            * 2
          + min 1 (x / 2 % 2))
        * 2
      + min 0 (x % 2))

above-ten : (t x : ℕ) → above t x ≡ t * 256 + bit_and 10 (x % 256)
above-ten t x = simp (min_zero, min_one) (omega (arith, and-ten (x % 256)))

eighth : (x : ℕ) → x / 2 / 2 / 2 / 2 / 2 / 2 / 2 / 2 ≡ x / 256
eighth x = omega arith

and-cr_lf : (x : ℕ) → bit_and cr_lf x ≡ bit_and 13 (x / 256) * 256 + bit_and 10 (x % 256)
and-cr_lf x =
    bit_and-bitwise cr_lf x
    ∙ ap (λ t. above t x) (sym (bit_and-bitwise 13 (x / 2 / 2 / 2 / 2 / 2 / 2 / 2 / 2)))
    ∙ ap (λ y. above (bit_and 13 y) x) (eighth x)
    ∙ above-ten (bit_and 13 (x / 256)) x

bound-ten : (x : ℕ) → bit_and 10 x < 256
bound-ten x = omega (arith, and-ten x)

is_crlf_split : (x : ℕ) → is_crlf x ≡ (like_cr (x / 256) && like_lf (x % 256))
unfolding is_crlf like_cr like_lf
is_crlf_split x = ground (arith, and-cr_lf x, bound-ten (x % 256))

like_cr_low : (x y : ℕ) → x % 256 ≡ y % 256 → like_cr x ≡ like_cr y
unfolding like_cr
like_cr_low x y h =
    let e : bit_and 13 x ≡ bit_and 13 y = omega (arith, and-thirteen x, and-thirteen y) in rw e

is_crlf_low : (x y : ℕ) → x % 2 ^ 16 ≡ y % 2 ^ 16 → is_crlf x ≡ is_crlf y
is_crlf_low x y h =
    let low : x % 256 ≡ y % 256 = omega arith in
    is_crlf_split x
    ∙ ap (λ c. c && like_lf (x % 256)) (like_cr_low (x / 256) (y / 256) (omega arith))
    ∙ ap (λ b. like_cr (y / 256) && like_lf b) low
    ∙ sym (is_crlf_split y)

-- What the test still knows of the last bytes: whether they look like the first byte, the first
-- two, and the first three of an empty line's end.
pub record Flags : Type 0 where
  pub one : Bool
  pub two : Bool
  pub three : Bool

abbrev pub no_flags : Flags
no_flags = record { one = false; two = false; three = false }

unfoldable pub scan : Flags → ℕ → Flags
unfolding like_cr like_lf
scan f b = record { one = like_cr b; two = f.one && like_lf b; three = like_cr b && f.two }

unfoldable pub fires : Flags → ℕ → Bool
unfolding like_lf
fires f b = f.three && like_lf b

unfoldable pub scan_all : Flags → List ℕ → Flags
unfolding scan
scan_all f [] = f
scan_all f (b ∷ bs) = scan_all (scan f b) bs

-- The header does not end within the text, which is ASCII.
unfoldable pub quiet : Flags → List ℕ → Bool
unfolding scan fires
quiet f [] = true
quiet f (b ∷ bs) = not (fires f b) && ltb b 128 && quiet (scan f b) bs

pub record Tracks (x : ℕ) (f : Flags) : Type 0 where
  pub one : like_cr (x % 256) ≡ f.one
  pub two : is_crlf x ≡ f.two
  pub three : (like_cr (x % 256) && is_crlf (x / 256)) ≡ f.three

pub Tracks-no_flags : Tracks 0 no_flags
unfolding like_cr is_crlf
Tracks-no_flags = record { one = refl; two = refl; three = refl }

push-ascii : (sc : Bool) (x b : ℕ) → b < 128 → push_byte sc x b ≡ x * 256 % 2 ^ 32 + b
unfolding push_byte
push-ascii sc x b h = ground arith

module _ (sc : Bool) (x b : ℕ) (f : Flags) (h : b < 128) (t : Tracks x f) where
  abbrev y : ℕ
  y = x * 256 % 2 ^ 32 + b

  crlf-scan : is_crlf y ≡ (f.one && like_lf b)
  crlf-scan =
      let low : y % 256 ≡ b = omega arith in
      is_crlf_split y
      ∙ ap (λ c. c && like_lf (y % 256)) (like_cr_low (y / 256) (x % 256) (omega arith) ∙ t.one)
      ∙ ap (λ c. f.one && like_lf c) low

  pub Tracks-push : Tracks (push_byte sc x b) (scan f b)
  unfolding scan
  Tracks-push =
      let low : y % 256 ≡ b = omega arith in
      rw (push-ascii sc x b h) (record {
        one = ap like_cr low;
        two = crlf-scan;
        three =
            ap (λ c. like_cr c && is_crlf (y / 256)) low
            ∙ ap (λ c. like_cr b && c) (is_crlf_low (y / 256) x (omega arith) ∙ t.two);
      })

  and-swap : (p q r : Bool) → ((p && q) && r) ≡ ((p && r) && q)
  and-swap false q r = refl
  and-swap true false false = refl
  and-swap true false true = refl
  and-swap true true false = refl
  and-swap true true true = refl

  pub crlfcrlf-fires : is_crlfcrlf (push_byte sc x b) ≡ fires f b
  unfolding is_crlfcrlf fires
  crlfcrlf-fires = rw (push-ascii sc x b h) (
      ap (λ c. c && is_crlf (y / 2 ^ 16)) crlf-scan
      ∙ ap (λ c. (f.one && like_lf b) && c) (is_crlf_low (y / 2 ^ 16) (x / 256) (omega arith))
      ∙ ap (λ c. (c && like_lf b) && is_crlf (x / 256)) (sym t.one)
      ∙ and-swap (like_cr (x % 256)) (like_lf b) (is_crlf (x / 256))
      ∙ ap (λ c. c && like_lf b) t.three)
