-- ===== src/Decimal.antt =====
-- `%d` and `%06d` of `printf`, for numbers that are not negative.
use raspberry_car.Base.{
  ℕ, zero, suc, ◌+◌, ◌-◌, ◌/◌, ◌%◌, ◌≡◌, refl, true, List, [], ◌∷◌, ◌++◌, ltb, if◌then◌else◌,
  length, replicate, arith, ◌⊎◌, inl, inr, Bool-cases,
}
use raspberry_car.CString.{is_digit}

-- The fuel bounds the number of digits.
unfoldable pub decimal_from : ℕ → ℕ → List ℕ → List ℕ
decimal_from zero n acc = (b'0' + n % 10) ∷ acc
decimal_from (suc fuel) n acc =
    let more = decimal_from fuel (n / 10) ((b'0' + n % 10) ∷ acc) in
    if ltb n 10 then (b'0' + n % 10) ∷ acc else more

unfoldable pub decimal : ℕ → List ℕ
unfolding decimal_from
decimal n = decimal_from n n []

unfoldable pub decimal6 : ℕ → List ℕ
unfolding decimal
decimal6 n = replicate (6 - length (decimal n)) b'0' ++ decimal n

abbrev pub IsDigit : ℕ → Type 0
IsDigit c = is_digit c ≡ true

IsDigit-mod : (n : ℕ) → IsDigit (b'0' + n % 10)
unfolding is_digit
IsDigit-mod n = ground arith

-- Digits, and at least one of them.
pub data IsNumber : List ℕ → Type 0 where
  one : {c : ℕ} → IsDigit c → IsNumber (c ∷ [])
  more : {c : ℕ} {cs : List ℕ} → IsDigit c → IsNumber cs → IsNumber (c ∷ cs)

IsNumber-cons :
    (n : ℕ) (acc : List ℕ) → (acc ≡ []) ⊎ IsNumber acc → IsNumber ((b'0' + n % 10) ∷ acc)
IsNumber-cons n acc (inl e) = rw e (one (IsDigit-mod n))
IsNumber-cons n acc (inr h) = more (IsDigit-mod n) h

decimal_from-IsNumber :
    (fuel n : ℕ) (acc : List ℕ) → (acc ≡ []) ⊎ IsNumber acc → IsNumber (decimal_from fuel n acc)
unfolding decimal_from
decimal_from-IsNumber zero n acc h = IsNumber-cons n acc h
decimal_from-IsNumber (suc fuel) n acc h = elim (Bool-cases (ltb n 10)) [
  | inl small ↦ rw small (IsNumber-cons n acc h)
  | inr big ↦
      rw big
        (decimal_from-IsNumber fuel (n / 10) ((b'0' + n % 10) ∷ acc) (inr (IsNumber-cons n acc h)))
]

pub decimal-IsNumber : (n : ℕ) → IsNumber (decimal n)
unfolding decimal
decimal-IsNumber n = decimal_from-IsNumber n n [] (inl refl)

zeros-IsNumber : (k : ℕ) (cs : List ℕ) → IsNumber cs → IsNumber (replicate k b'0' ++ cs)
unfolding is_digit
zeros-IsNumber zero cs h = h
zeros-IsNumber (suc k) cs h = more refl (zeros-IsNumber k cs h)

pub decimal6-IsNumber : (n : ℕ) → IsNumber (decimal6 n)
unfolding decimal6
decimal6-IsNumber n = zeros-IsNumber (6 - length (decimal n)) (decimal n) (decimal-IsNumber n)
