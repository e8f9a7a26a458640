-- ===== src/Proxy/Search.antt =====
-- The search for the boundary: it fires at the boundary, and nowhere in a text that avoids it.
use raspberry_car.Base.{
  ℕ, zero, suc, ◌+◌, ◌≤◌, ◌<◌, ◌≡◌, ◌≢◌, refl, sym, ap, ◌∙◌, List, [], ◌∷◌, ◌++◌, append_assoc,
  append-nil, ◌==◌, if◌then◌else◌, get_or, take, length, All, arith, dec_lt, inl, inr, Bool-cases,
  take_all,
}
use raspberry_car.Proxy.{search_pattern_compare, boundary}

-- The offset after one more character.
unfoldable pub advance : List ℕ → ℕ → ℕ → ℕ
advance string k c = if get_or string k 0 == c then k + 1 else 0

unfoldable pub advance_all : List ℕ → ℕ → List ℕ → ℕ
advance_all string k [] = k
advance_all string k (c ∷ cs) = advance_all string (advance string k c) cs

-- The search does not fire within the text.
abbrev pub Free : List ℕ → ℕ → List ℕ → Type 0
Free string k [] = Unit {0}
Free string k (c ∷ cs) =
    (get_or string (advance string k c) 0 ≢ 0) × Free string (advance string k c) cs

-- The string does not stand in the text.
abbrev pub Avoids : List ℕ → List ℕ → Type 0
Avoids string text = (before after : List ℕ) → text ≢ before ++ (string ++ after)

pub compare-advance :
    (string : List ℕ) (k c : ℕ)
    → search_pattern_compare (record { string = string; current = k }) c
      ≡ record { string = string; current = advance string k c }
unfolding search_pattern_compare advance
compare-advance string k c = ground arith

pub advance_all-append :
    (string : List ℕ) (k : ℕ) (xs ys : List ℕ)
    → advance_all string k (xs ++ ys) ≡ advance_all string (advance_all string k xs) ys
unfolding advance_all
advance_all-append string k [] ys = refl
advance_all-append string k (x ∷ xs) ys = advance_all-append string (advance string k x) xs ys

pub Free-append :
    (string : List ℕ) (k : ℕ) (xs ys : List ℕ)
    → Free string k xs
    → Free string (advance_all string k xs) ys
    → Free string k (xs ++ ys)
unfolding advance_all
Free-append string k [] ys h g = g
Free-append string k (x ∷ xs) ys h g = (h.0, Free-append string (advance string k x) xs ys h.1 g)

pub get_or-ne_nul :
    (string : List ℕ) (k : ℕ)
    → All (λ c. c ≢ 0) string
    → (get_or string k 0 ≡ 0)
    → length string ≤ k
get_or-ne_nul [] k nz h = omega arith
get_or-ne_nul (c ∷ cs) zero nz h = absurd (nz.0 h)
get_or-ne_nul (c ∷ cs) (suc k) nz h = omega (arith, get_or-ne_nul cs k nz.1 h)

take-get_or :
    (string : List ℕ) (k c : ℕ)
    → k < length string
    → get_or string k 0 ≡ c
    → take (k + 1) string ≡ take k string ++ c ∷ []
take-get_or [] k c h e = absurd (omega arith)
take-get_or (x ∷ xs) zero c h e = ap (λ y. y ∷ []) e
take-get_or (x ∷ xs) (suc k) c h e =
    let n : suc k + 1 ≡ suc (k + 1) = omega arith in
    rw n (ap (◌∷◌ x) (take-get_or xs k c (omega arith) e))

module _ (string : List ℕ) (nz : All (λ c. c ≢ 0) string) (ne : 0 < length string) where
  -- What was read ends with the part of the string that is matched.
  Ends : ℕ → List ℕ → Type 0
  Ends k text = (before : List ℕ) × (text ≡ before ++ take k string)

  Ends-advance :
      (k c : ℕ) (text : List ℕ)
      → k < length string
      → Ends k text
      → Ends (advance string k c) (text ++ c ∷ [])
  unfolding Ends advance
  Ends-advance k c text lt (before, e) = elim (Bool-cases (get_or string k 0 == c)) [
    | inl same ↦ rw same (
      before,
      rw (take-get_or string k c lt (ground arith))
          (ap (λ l. l ++ c ∷ []) e ∙ append_assoc before (take k string) (c ∷ [])),
    )
    | inr other ↦ rw other (text ++ c ∷ [], sym (append-nil (text ++ c ∷ [])))
  ]

  advance-le : (k c : ℕ) → k < length string → advance string k c ≤ length string
  unfolding advance
  advance-le k c lt = ground arith

  Avoids-Free_from :
      (k : ℕ) (text read : List ℕ)
      → Avoids string (read ++ text)
      → k < length string
      → Ends k read
      → Free string k text
  unfolding Ends
  Avoids-Free_from k [] read av lt e = tt
  Avoids-Free_from k (c ∷ text) read av lt e =
      let k' = advance string k c in
      let next = Ends-advance k c read lt e in
      let shift : (read ++ c ∷ []) ++ text ≡ read ++ c ∷ text = append_assoc read (c ∷ []) text in
      elim (dec_lt k' (length string)) [
        | yes below ↦ (
          (λ h. absurd (omega (arith, get_or-ne_nul string k' nz h))),
          Avoids-Free_from k' text (read ++ c ∷ []) (λ b a h. av b a (sym shift ∙ h)) below next,
        )
        | no full ↦ absurd (
            av next.0 text (
              sym shift
              ∙ ap (λ l. l ++ text)
                  (next.1 ∙ ap (λ l. next.0 ++ l) (take_all k' string (omega arith)))
              ∙ append_assoc next.0 string text))
      ]

  -- The search does not fire in a text that the string does not stand in.
  pub Avoids-Free : (text : List ℕ) → Avoids string text → Free string 0 text
  unfolding Ends
  Avoids-Free text av = Avoids-Free_from 0 text [] av ne ([], refl)

pub boundary-ne_nul : All (λ c. c ≢ 0) boundary
boundary-ne_nul = omega arith

get_or-All : (xs : List ℕ) (k d v : ℕ) → All (λ c. c ≢ v) xs → d ≢ v → get_or xs k d ≢ v
get_or-All [] k d v h e = e
get_or-All (x ∷ xs) zero d v h e = h.0
get_or-All (x ∷ xs) (suc k) d v h e = get_or-All xs k d v h.1 e

-- No character of a line end is in the boundary, so the search starts again behind it.
pub advance-line_end : (k c : ℕ) → All (λ x. x ≢ c) boundary → 0 ≢ c → advance boundary k c ≡ 0
unfolding advance
advance-line_end k c h z = ground (arith, get_or-All boundary k 0 c h z)
