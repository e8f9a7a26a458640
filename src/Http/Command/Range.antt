-- ===== src/Http/Command/Range.antt =====
-- Which plugins a command reaches.
use raspberry_car.Base.{
  ℕ, zero, suc, ◌-◌, ◌<◌, ◌^◌, min, ◌≡◌, ◌≢◌, refl, subst, Bool, true, false, not, ◌||◌, List, [],
  ◌∷◌, Option, none, some, inl, inr, All, ◌==◌, leb, drop, length, Bool-cases, Option-cases, arith,
}
use raspberry_car.Base.Int.{ℤ, pos, negsuc, ltb_ℤ}
use raspberry_car.CString.{codes, strstr, span, is_prefix}
use raspberry_car.Http.Command.{
  Arguments, Call, input_cmd, output_cmd, Result, refused, answered, is_number_char, is_word_char,
  to_int, digits_value, variable, number_in, arguments, call, perform, command,
}

-- The plugin's number is below the count, and, where the parameter has no minus sign, not negative.
abbrev pub Reaches : Bool → ℕ → ℤ → Type 0
Reaches signless count n =
    (ltb_ℤ n (pos count) ≡ true) × (signless ≡ true → (k : ℕ) × (n ≡ pos k) × (k < count))

abbrev pub CallReaches : Bool → ℕ → ℕ → Option Call → Type 0
CallReaches signless incnt outcnt none = Unit {0}
CallReaches signless incnt outcnt (some (input_cmd a)) = Reaches signless incnt a.plugin_no
CallReaches signless incnt outcnt (some (output_cmd a)) = Reaches signless outcnt a.plugin_no

abbrev pub ResultReaches : Bool → ℕ → ℕ → Result → Type 0
ResultReaches signless incnt outcnt (refused code) = Unit {0}
ResultReaches signless incnt outcnt (answered made text) = CallReaches signless incnt outcnt made

-- A minus sign stands in the text.
unfoldable pub has_minus : List ℕ → Bool
has_minus [] = false
has_minus (c ∷ cs) = c == b'-' || has_minus cs

abbrev NoMinus : List ℕ → Type 0
NoMinus text = All (λ c. c ≢ b'-') text

has_minus-NoMinus : (text : List ℕ) → has_minus text ≡ false → NoMinus text
unfolding has_minus
has_minus-NoMinus [] h = tt
has_minus-NoMinus (c ∷ text) h = (ground arith, has_minus-NoMinus text (ground arith))

strstr-NoMinus :
    (text pattern rest : List ℕ) → NoMinus text → strstr text pattern ≡ some rest → NoMinus rest
unfolding strstr
strstr-NoMinus [] pattern rest h e = elim (Bool-cases (is_prefix pattern [])) [
  | inl found ↦ subst NoMinus (some-eq (rw found at e)) tt
  | inr other ↦ absurd (none-some (rw other at e))
]
  where
    some-eq : some [] ≡ some rest → [] ≡ rest
    some-eq d = cc

    none-some : none ≡ some rest → ⊥
    none-some d = cc
strstr-NoMinus (c ∷ text) pattern rest h e = elim (Bool-cases (is_prefix pattern (c ∷ text))) [
  | inl found ↦ subst NoMinus (some-eq (rw found at e)) h
  | inr other ↦ strstr-NoMinus text pattern rest h.1 (rw other at e)
]
  where
    some-eq : some (c ∷ text) ≡ some rest → c ∷ text ≡ rest
    some-eq d = cc

drop-NoMinus : (n : ℕ) (text : List ℕ) → NoMinus text → NoMinus (drop n text)
drop-NoMinus zero text h = h
drop-NoMinus (suc n) [] h = tt
drop-NoMinus (suc n) (c ∷ text) h = drop-NoMinus n text h.1

span-NoMinus : (accept : ℕ → Bool) (text : List ℕ) → NoMinus text → NoMinus (span accept text)
unfolding span
span-NoMinus accept [] h = tt
span-NoMinus accept (c ∷ text) h = elim (Bool-cases (accept c)) [
  | inl found ↦ rw found (h.0, span-NoMinus accept text h.1)
  | inr other ↦ rw other tt
]

to_int-NoMinus : (text : List ℕ) → NoMinus text → (k : ℕ) × (to_int text ≡ pos k)
unfolding to_int
to_int-NoMinus [] h = (0, refl)
to_int-NoMinus (c ∷ text) h =
    let other : (c == b'-') ≡ false = ground arith in
    (min (digits_value 0 (c ∷ text)) (2 ^ 31 - 1), rw other)

number_in-NoMinus :
    (parameter name : List ℕ)
    → NoMinus parameter
    → (k : ℕ) × (number_in parameter name (pos 0) ≡ pos k)
unfolding number_in variable
number_in-NoMinus parameter name h = elim (Option-cases (strstr parameter name)) [
  | inl missing ↦ (0, rw (number_in, missing))
  | inr (rest, found) ↦
      let clean =
        span-NoMinus is_number_char (drop (length name) rest)
          (drop-NoMinus (length name) rest (strstr-NoMinus parameter name rest h found)) in
      let (k, e) = to_int-NoMinus (span is_number_char (drop (length name) rest)) clean in
      (k, rw (number_in, found) e)
]

below-pos : (k count : ℕ) → ltb_ℤ (pos k) (pos count) ≡ true → k < count
below-pos k count h = ground arith

module _ (incnt outcnt : ℕ) (signless : Bool) (a : Arguments)
    (nat : signless ≡ true → (k : ℕ) × (a.plugin_no ≡ pos k)) where
  in_reach : (count : ℕ) → ltb_ℤ a.plugin_no (pos count) ≡ true → Reaches signless count a.plugin_no
  in_reach count h = (
    h,
    (λ e.
        let (k, is_k) = nat e in
        (k, is_k, below-pos k count (subst (λ n. ltb_ℤ n (pos count) ≡ true) is_k h))),
  )

  call-CallReaches : (dest : ℤ) → CallReaches signless incnt outcnt (call incnt outcnt dest a)
  unfolding call
  call-CallReaches (pos zero) = elim (Bool-cases (ltb_ℤ a.plugin_no (pos incnt))) [
    | inl inside ↦ rw inside (in_reach incnt inside)
    | inr out ↦ rw out tt
  ]
  call-CallReaches (pos (suc zero)) = elim (Bool-cases (ltb_ℤ a.plugin_no (pos outcnt))) [
    | inl inside ↦ rw inside (in_reach outcnt inside)
    | inr out ↦ rw out tt
  ]
  call-CallReaches (pos (suc (suc n))) = tt
  call-CallReaches (negsuc n) = tt

not-true : (b : Bool) → not b ≡ true → b ≡ false
not-true true h = cc
not-true false h = refl

perform-Reaches :
    (incnt outcnt : ℕ) (cmd : Call → ℤ) (parameter : List ℕ)
    → ResultReaches (not (has_minus parameter)) incnt outcnt (perform incnt outcnt cmd parameter)
unfolding perform arguments
perform-Reaches incnt outcnt cmd parameter =
    elim (Option-cases (variable parameter (codes "id="))) [
      | inl missing ↦ rw (ResultReaches, missing) tt
      | inr (text, found) ↦
          rw (ResultReaches, found)
            (call-CallReaches incnt outcnt (not (has_minus parameter))
              (arguments parameter (span is_word_char text))
              (λ e.
                number_in-NoMinus parameter (codes "plugin=")
                  (has_minus-NoMinus parameter (not-true (has_minus parameter) e)))
              (number_in parameter (codes "dest=") (pos 0)))
    ]

-- Whatever the parameter is, a command that reaches a plugin names one below the number of those
-- loaded, of inputs or of outputs as its destination says; and if no minus sign stands in the
-- parameter, the number is not negative either.
pub command-Reaches :
    (incnt outcnt : ℕ) (cmd : Call → ℤ) (parameter : List ℕ)
    → ResultReaches
        (not (has_minus parameter))
        incnt
        outcnt
        (command incnt outcnt cmd (some parameter))
unfolding command
command-Reaches incnt outcnt cmd parameter =
    elim (Bool-cases (leb 255 (length parameter) || length parameter == 0)) [
      | inl bad ↦ rw bad tt
      | inr good ↦ rw good (perform-Reaches incnt outcnt cmd parameter)
    ]
