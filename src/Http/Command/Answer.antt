-- ===== src/Http/Command/Answer.antt =====
-- The answer to a command, and the buffer that it is printed into.
use raspberry_car.Base.{
  ℕ, zero, suc, ◌+◌, ◌*◌, ◌/◌, ◌%◌, ◌^◌, ◌<◌, ◌≤◌, ◌≡◌, ap, Bool, ◌||◌, List, [], ◌∷◌, ◌++◌, Option,
  none, some, ◌==◌, leb, ltb, drop, length, length-append, length-drop, Bool-cases, Option-cases,
  inl, inr, arith,
}
use raspberry_car.Base.Int.{ℤ, pos, negsuc}
use raspberry_car.CString.{codes, strstr, is_prefix, span}
use raspberry_car.Decimal.{decimal, decimal_from}
use raspberry_car.Http.Command.{
  Call, Result, refused, answered, is_word_char, variable, number_in, arguments, call, decimal_ℤ,
  command_header, response, result_of, perform, command,
}

-- An `int` of the source.
abbrev pub IsInt : ℤ → Type 0
IsInt (pos n) = n < 2 ^ 31
IsInt (negsuc n) = n < 2 ^ 31

abbrev pub buffer_size : ℕ
buffer_size = 1024

-- The text and its NUL fit in the buffer.
abbrev pub Fits : Result → Type 0
Fits (refused code) = Unit {0}
Fits (answered made text) = length text < buffer_size

-- 10 ^ (k + 1)
abbrev tens : ℕ → ℕ
tens zero = 10
tens (suc k) = 10 * tens k

length-decimal_from :
    (k fuel n : ℕ) (acc : List ℕ)
    → n < tens k
    → length (decimal_from fuel n acc) ≤ length acc + suc k
unfolding decimal_from
length-decimal_from k zero n acc h = omega arith
length-decimal_from zero (suc fuel) n acc h = elim (Bool-cases (ltb n 10)) [
  | inl small ↦ rw small (omega arith)
  | inr big ↦ absurd (ground arith)
]
length-decimal_from (suc k) (suc fuel) n acc h = elim (Bool-cases (ltb n 10)) [
  | inl small ↦ rw small (omega arith)
  | inr big ↦
      rw big
        (omega (arith, length-decimal_from k fuel (n / 10) ((b'0' + n % 10) ∷ acc) (omega arith)))
]

length-decimal : (n : ℕ) → n < tens 9 → length (decimal n) ≤ 10
unfolding decimal
length-decimal n h = length-decimal_from 9 n n [] h

length-decimal_ℤ : (n : ℤ) → IsInt n → length (decimal_ℤ n) ≤ 11
unfolding decimal_ℤ
length-decimal_ℤ (pos n) h = omega (arith, length-decimal n (omega arith))
length-decimal_ℤ (negsuc n) h = omega (arith, length-decimal (suc n) (omega arith))

length-response :
    (name : List ℕ) (n : ℤ) → length name < 255 → IsInt n → length (response name n) < buffer_size
unfolding response
length-response name n h k = omega (
  arith,
  length-append command_header (name ++ (codes ": " ++ decimal_ℤ n)),
  length-append name (codes ": " ++ decimal_ℤ n),
  length-append (codes ": ") (decimal_ℤ n),
  length-decimal_ℤ n k,
)

length-span : (accept : ℕ → Bool) (text : List ℕ) → length (span accept text) ≤ length text
unfolding span
length-span accept [] = omega arith
length-span accept (c ∷ text) = elim (Bool-cases (accept c)) [
  | inl taken ↦ rw taken (omega (arith, length-span accept text))
  | inr left ↦ rw left (omega arith)
]

length-strstr :
    (text pattern rest : List ℕ) → strstr text pattern ≡ some rest → length rest ≤ length text
unfolding strstr
length-strstr [] pattern rest e = ground arith
length-strstr (c ∷ text) pattern rest e = elim (Bool-cases (is_prefix pattern (c ∷ text))) [
  | inl found ↦ omega (arith, ap (λ (l : List ℕ). length l) (some-eq (rw found at e)))
  | inr other ↦ omega (arith, length-strstr text pattern rest (rw other at e))
]
  where
    some-eq : some (c ∷ text) ≡ some rest → c ∷ text ≡ rest
    some-eq d = cc

length-variable :
    (parameter name text : List ℕ)
    → variable parameter name ≡ some text
    → length text ≤ length parameter
unfolding variable
length-variable parameter name text e = elim (Option-cases (strstr parameter name)) [
  | inl missing ↦ absurd (none-some (rw (variable, missing) at e))
  | inr (rest, found) ↦ omega (
    arith,
    length-strstr parameter name rest found,
    length-drop (length name) rest,
    ap (λ (l : List ℕ). length l) (some-eq rest (rw (variable, found) at e)),
  )
]
  where
    none-some : none ≡ some text → ⊥
    none-some d = cc

    some-eq :
        (rest : List ℕ)
        → some (drop (length name) rest) ≡ some text
        → drop (length name) rest ≡ text
    some-eq rest d = cc

result_of-IsInt :
    (cmd : Call → ℤ) (made : Option Call)
    → ((c : Call) → IsInt (cmd c))
    → IsInt (result_of cmd made)
result_of-IsInt cmd none h = omega arith
result_of-IsInt cmd (some c) h = h c

perform-Fits :
    (incnt outcnt : ℕ) (cmd : Call → ℤ) (parameter : List ℕ)
    → ((c : Call) → IsInt (cmd c))
    → length parameter < 255
    → Fits (perform incnt outcnt cmd parameter)
unfolding perform
perform-Fits incnt outcnt cmd parameter ints short =
    elim (Option-cases (variable parameter (codes "id="))) [
      | inl missing ↦ rw (Fits, missing) tt
      | inr (text, found) ↦
          let made =
            call incnt outcnt (number_in parameter (codes "dest=") (pos 0))
              (arguments parameter (span is_word_char text)) in
          rw (Fits, found)
            (length-response (span is_word_char text) (result_of cmd made)
              (omega (
                arith,
                length-span is_word_char text,
                length-variable parameter (codes "id=") text found,
              ))
              (result_of-IsInt cmd made ints))
    ]

-- The answer to a command fits in the buffer that it is printed into, whatever the parameter is and
-- whatever `int` the plugin returns.
pub command-Fits :
    (incnt outcnt : ℕ) (cmd : Call → ℤ) (parameter : Option (List ℕ))
    → ((c : Call) → IsInt (cmd c))
    → Fits (command incnt outcnt cmd parameter)
unfolding command
command-Fits incnt outcnt cmd none ints = tt
command-Fits incnt outcnt cmd (some parameter) ints =
    elim (Bool-cases (leb 255 (length parameter) || length parameter == 0)) [
      | inl bad ↦ rw (Fits, bad) tt
      | inr good ↦ rw (Fits, good) (perform-Fits incnt outcnt cmd parameter ints (ground arith))
    ]
