-- ===== src/Http/Json/Parts.antt =====
-- The reader at lists of descriptions, and at numbers.
use raspberry_car.Base.{
  ℕ, ◌+◌, ◌≡◌, refl, ◌∙◌, true, List, [], ◌∷◌, ◌++◌, All, append_assoc, append-nil, arith,
}
use raspberry_car.Base.Int.{ℤ, pos, negsuc}
use raspberry_car.CString.{is_digit}
use raspberry_car.Decimal.{IsNumber, one, more, IsDigit, decimal, decimal-IsNumber}
use raspberry_car.Http.Json.Text.{with_commas, signed}
use raspberry_car.Http.Json.Strings.{Plain}
use raspberry_car.Http.Json.Reader.{
  Token, Bracket, array, value, first_element, behind_value, in_number, close_array, number, onto,
  read, is_plain,
}

IsDigit-Plain : (c : ℕ) → IsDigit c → is_plain c ≡ true
unfolding is_plain is_digit
IsDigit-Plain c h = ground arith

IsNumber-Plain : (cs : List ℕ) → IsNumber cs → Plain cs
IsNumber-Plain [] h = elim h [ ]
IsNumber-Plain (c ∷ []) (one h) = (IsDigit-Plain c h, tt)
IsNumber-Plain (c ∷ cs) (more h k) = (IsDigit-Plain c h, IsNumber-Plain cs k)

pub decimal-Plain : (n : ℕ) → Plain (decimal n)
decimal-Plain n = IsNumber-Plain (decimal n) (decimal-IsNumber n)

pub signed-Plain : (n : ℤ) → Plain (signed n)
unfolding signed is_plain
signed-Plain (pos n) = decimal-Plain n
signed-Plain (negsuc n) = (refl, decimal-Plain (n + 1))

digit_more :
    (c : ℕ) (cs : List ℕ) (inside : List Bracket) (seen : List Token) (rest : List ℕ)
    → IsDigit c
    → (read (c ∷ rest) (in_number cs) inside seen
        ≡ read rest (in_number (cs ++ c ∷ [])) inside seen)
      × (read (c ∷ rest) value inside seen ≡ read rest (in_number (c ∷ [])) inside seen)
unfolding read is_digit
digit_more c cs inside seen rest h = ground arith

read_digits :
    (ds cs rest : List ℕ) (inside : List Bracket) (seen : List Token)
    → IsNumber ds
    → read (ds ++ b'\n' ∷ rest) (in_number cs) inside seen
      ≡ read rest behind_value inside (number (cs ++ ds) ∷ seen)
unfolding read
read_digits [] cs rest inside seen h = elim h [ ]
read_digits (c ∷ []) cs rest inside seen (one h) = (digit_more c cs inside seen (b'\n' ∷ rest) h).0
read_digits (c ∷ ds) cs rest inside seen (more h k) =
    let e : (cs ++ c ∷ []) ++ ds ≡ cs ++ c ∷ ds = append_assoc cs (c ∷ []) ds in
    (digit_more c cs inside seen (ds ++ b'\n' ∷ rest) h).0
    ∙ read_digits ds (cs ++ c ∷ []) rest inside seen k
    ∙ rw e

pub read_number :
    (ds rest : List ℕ) (inside : List Bracket) (seen : List Token)
    → IsNumber ds
    → read (ds ++ b'\n' ∷ rest) value inside seen ≡ read rest behind_value inside (number ds ∷ seen)
unfolding read
read_number [] rest inside seen h = elim h [ ]
read_number (c ∷ []) rest inside seen (one h) = (digit_more c [] inside seen (b'\n' ∷ rest) h).1
read_number (c ∷ ds) rest inside seen (more h k) =
    (digit_more c [] inside seen (ds ++ b'\n' ∷ rest) h).1
    ∙ read_digits ds (c ∷ []) rest inside seen k

-- The tokens of the elements of an array.
abbrev pub all_tokens {ℓ} : {A : Type ℓ} → (A → List Token) → List A → List Token
all_tokens tokens [] = []
all_tokens tokens (x ∷ xs) = tokens x ++ all_tokens tokens xs

pub onto-append : (xs ys zs : List Token) → onto (xs ++ ys) zs ≡ onto ys (onto xs zs)
unfolding onto
onto-append [] ys zs = refl
onto-append (x ∷ xs) ys zs = onto-append xs ys (x ∷ zs)

pub onto-onto : (xs ys zs : List Token) → onto (onto xs ys) zs ≡ onto ys (xs ++ zs)
unfolding onto
onto-onto [] ys zs = refl
onto-onto (x ∷ xs) ys zs = onto-onto xs (x ∷ ys) zs

-- A loop whose descriptions are read leads from behind the `[` to the end of the array.
module _ {A : Type 0} {Good : A → Type 0} (item : A → List ℕ → List ℕ) (tokens : A → List Token)
    (comma last close : List ℕ) (inside : List Bracket)
    (first : (x : A) (rest : List ℕ) (seen : List Token)
      → read (item x rest) first_element (array ∷ inside) seen
        ≡ read (item x rest) value (array ∷ inside) seen)
    (next : (x : A) (rest : List ℕ) (seen : List Token)
      → Good x
      → read (item x (comma ++ rest)) value (array ∷ inside) seen
        ≡ read rest value (array ∷ inside) (onto (tokens x) seen))
    (end : (x : A) (rest : List ℕ) (seen : List Token)
      → Good x
      → read (item x (last ++ rest)) value (array ∷ inside) seen
        ≡ read rest behind_value (array ∷ inside) (onto (tokens x) seen))
    (closed : (rest : List ℕ) (seen : List Token)
      → (read (close ++ rest) first_element (array ∷ inside) seen
          ≡ read rest behind_value inside (close_array ∷ seen))
        × (read (close ++ rest) behind_value (array ∷ inside) seen
            ≡ read rest behind_value inside (close_array ∷ seen))) where
  read_values :
      (x : A) (xs : List A) (rest : List ℕ) (seen : List Token)
      → Good x
      → All Good xs
      → read (with_commas item comma last (x ∷ xs) rest) value (array ∷ inside) seen
        ≡ read rest behind_value (array ∷ inside) (onto (tokens x ++ all_tokens tokens xs) seen)
  read_values x [] rest seen h k = rw append-nil (end x rest seen h)
  read_values x (y ∷ ys) rest seen h k =
      next x (with_commas item comma last (y ∷ ys) rest) seen h
      ∙ read_values y ys rest (onto (tokens x) seen) k.0 k.1
      ∙ rw (onto-append (tokens x) (all_tokens tokens (y ∷ ys)) seen)

  read_some :
      (x : A) (xs : List A) (rest : List ℕ) (seen : List Token)
      → Good x
      → All Good xs
      → read (with_commas item comma last (x ∷ xs) (close ++ rest)) value (array ∷ inside) seen
        ≡ read rest behind_value inside (close_array ∷ onto (tokens x ++ all_tokens tokens xs) seen)
  read_some x xs rest seen h k =
      read_values x xs (close ++ rest) seen h k
      ∙ (closed rest (onto (tokens x ++ all_tokens tokens xs) seen)).1

  pub read_array :
      (xs : List A) (rest : List ℕ) (seen : List Token)
      → All Good xs
      → read (with_commas item comma last xs (close ++ rest)) first_element (array ∷ inside) seen
        ≡ read rest behind_value inside (close_array ∷ onto (all_tokens tokens xs) seen)
  unfolding onto
  read_array [] rest seen h = (closed rest seen).0
  read_array (x ∷ []) rest seen h =
      first x (last ++ (close ++ rest)) seen ∙ read_some x [] rest seen h.0 h.1
  read_array (x ∷ y ∷ xs) rest seen h =
      first x (comma ++ with_commas item comma last (y ∷ xs) (close ++ rest)) seen
      ∙ read_some x (y ∷ xs) rest seen h.0 h.1
