-- ===== src/Http/Json/Resolutions.antt =====
-- The memory of the resolutions of a format.
use raspberry_car.Base.{
  ℕ, zero, suc, ◌+◌, ◌*◌, ◌/◌, ◌%◌, ◌≤◌, ◌<◌, ◌≡◌, ap, ◌∙◌, true, List, [], ◌∷◌, ◌++◌, append-nil,
  append_assoc, some, All, length, length-append, leb, arith,
}
use raspberry_car.CString.{codes}
use raspberry_car.Decimal.{decimal, decimal_from}
use raspberry_car.Http.Json.Input.{
  Resolution, resolution_text, fits_buffer_num, resolution_length, resolutions_from,
}
use raspberry_car.Http.Json.Members.{Member, members_text}

abbrev tens : ℕ → ℕ
tens zero = 1
tens (suc k) = 10 * tens k

length-decimal_from_le :
    (k fuel n : ℕ) (acc : List ℕ)
    → n < tens (suc k)
    → length (decimal_from fuel n acc) ≤ suc k + length acc
unfolding decimal_from
length-decimal_from_le k zero n acc h = omega arith
length-decimal_from_le zero (suc fuel) n acc h = ground arith
length-decimal_from_le (suc k) (suc fuel) n acc h =
    ground (arith, length-decimal_from_le k fuel (n / 10) ((b'0' + n % 10) ∷ acc) (omega arith))

pub length-decimal_le_five : (n : ℕ) → n < 100000 → length (decimal n) ≤ 5
unfolding decimal
length-decimal_le_five n h = omega (arith, length-decimal_from_le 4 n n [] h)

fits_buffer_num_small : (n : ℕ) → n < 100000 → fits_buffer_num n ≡ true
unfolding fits_buffer_num
fits_buffer_num_small n h = ground (arith, length-decimal_le_five n h)

-- A picture size of at most five digits.
abbrev pub Small : Resolution → Type 0
Small r = (r.width < 100000) × (r.height < 100000)

abbrev pub resolution_members : ℕ → List Resolution → List Member
resolution_members j [] = []
resolution_members j (r ∷ rs) =
    (decimal j, decimal r.width ++ (codes "x" ++ decimal r.height)) ∷ resolution_members (j + 1) rs

length-resolution_text :
    (j others : ℕ) (r : Resolution)
    → length (resolution_text j r others) + 5 ≡ resolution_length j r others
unfolding resolution_text resolution_length
length-resolution_text j zero r = omega (
  arith,
  length-append (decimal j)
      (codes "\": \"" ++ (decimal r.width ++ (codes "x" ++ (decimal r.height ++ codes "\"")))),
  length-append (decimal r.width) (codes "x" ++ (decimal r.height ++ codes "\"")),
  length-append (decimal r.height) (codes "\""),
)
length-resolution_text j (suc n) r = omega (
  arith,
  length-append (decimal j)
      (codes "\": \"" ++ (decimal r.width ++ (codes "x" ++ (decimal r.height ++ codes "\", ")))),
  length-append (decimal r.width) (codes "x" ++ (decimal r.height ++ codes "\", ")),
  length-append (decimal r.height) (codes "\", "),
)

resolution_text_members :
    (j : ℕ) (r : Resolution) (rs : List Resolution)
    → resolution_text j r (length rs)
        ++ members_text (codes ", ") (resolution_members (j + 1) rs) []
      ≡ members_text (codes ", ") (resolution_members j (r ∷ rs)) []
unfolding resolution_text members_text
resolution_text_members j r [] = simp (append-nil, append_assoc)
resolution_text_members j r (q ∷ rs) = simp append_assoc

-- Resolutions of at most five digits (and at most 100,000 of them) fit `buffer_num`, and what they are
-- written as fits the memory that is allocated for it.
pub resolutions_from_lem :
    (size : ℕ) (text : List ℕ) (j : ℕ) (rs : List Resolution)
    → length text ≤ size * 8
    → j + length rs ≤ 100000
    → All Small rs
    → resolutions_from size text j rs
      ≡ some (text ++ members_text (codes ", ") (resolution_members j rs) [])
unfolding resolutions_from
resolutions_from_lem size text j [] l n h = unfold members_text in rw append-nil
resolutions_from_lem size text j (r ∷ rs) l n h =
    let piece = resolution_text j r (length rs) in
    let size' = size + resolution_length j r (length rs) in
    let long : length (text ++ piece) + 1 ≤ size' * 8 =
      omega (arith, length-append text piece, length-resolution_text j (length rs) r) in
    let fits : leb (length (text ++ piece) + 1) (size' * 8) ≡ true = ground (arith, long) in
    rw
      (
        resolutions_from,
        fits_buffer_num_small j (omega arith),
        fits_buffer_num_small r.width h.0.0,
        fits_buffer_num_small r.height h.0.1,
        fits,
      )
      (resolutions_from_lem size' (text ++ piece) (j + 1) rs (omega (arith, long)) (omega arith) h.1
        ∙ ap some (
            append_assoc text piece (members_text (codes ", ") (resolution_members (j + 1) rs) [])
            ∙ ap (λ (t : List ℕ). text ++ t) (resolution_text_members j r rs)))
