-- ===== src/Http/Base64/Encode.antt =====
-- The base64 text of RFC 4648, and that decodeBase64 reads it back.
use raspberry_car.Base.{
  ℕ, ◌+◌, ◌-◌, ◌*◌, ◌/◌, ◌%◌, ◌<◌, ◌≡◌, ◌≢◌, refl, ap, ap₂, ◌∙◌, List, [], ◌∷◌, ◌++◌, none, some,
  ◌==◌, ltb, if◌then◌else◌, All, arith, subst,
}
use raspberry_car.Http.Base64.{sextet, shift_in, decode_base64}
use raspberry_car.Http.Base64.Quads.{octets, decoded}
use raspberry_car.Http.Base64.Decode.{
  decoded-skip, decoded-part, decoded-full, Holds, decode_base64_lem,
}

-- The character for six bits.
unfoldable pub letter : ℕ → ℕ
letter t =
    if ltb t 26
    then b'A' + t
    else if ltb t 52
    then b'a' + (t - 26)
    else if ltb t 62
    then b'0' + (t - 52)
    else if t == 62
    then b'+'
    else b'/'

unfoldable pub encode : List ℕ → List ℕ
unfolding letter
encode [] = []
encode (a ∷ []) = letter (a / 4) ∷ letter (a % 4 * 16) ∷ b'=' ∷ b'=' ∷ []
encode (a ∷ b ∷ []) =
    letter (a / 4) ∷ letter (a % 4 * 16 + b / 16) ∷ letter (b % 16 * 4) ∷ b'=' ∷ []
encode (a ∷ b ∷ c ∷ xs) =
    letter (a / 4)
    ∷ letter (a % 4 * 16 + b / 16)
    ∷ letter (b % 16 * 4 + c / 64)
    ∷ letter (c % 64)
    ∷ encode xs

-- The NUL bytes that the `=` signs decode to.
unfoldable pub padding : List ℕ → List ℕ
padding [] = []
padding (a ∷ []) = 0 ∷ 0 ∷ []
padding (a ∷ b ∷ []) = 0 ∷ []
padding (a ∷ b ∷ c ∷ xs) = padding xs

sextet-letter : (t : ℕ) → t < 64 → sextet (letter t) ≡ some t
unfolding sextet letter
sextet-letter t h = ground arith

sextet-pad : sextet b'=' ≡ some 0
unfolding sextet
sextet-pad = refl

-- Four characters make one group.
decoded-group :
    (ch p q r s : ℕ) (x y z w : ℕ) (cs : List ℕ)
    → sextet p ≡ some x
    → sextet q ≡ some y
    → sextet r ≡ some z
    → sextet s ≡ some w
    → let ch' = shift_in (shift_in (shift_in (shift_in ch x) y) z) w in
      decoded ch 0 (p ∷ q ∷ r ∷ s ∷ cs) ≡ octets ch' ++ decoded ch' 0 cs
decoded-group ch p q r s x y z w cs hp hq hr hs =
    let c1 = shift_in ch x in
    let c2 = shift_in c1 y in
    let c3 = shift_in c2 z in
    decoded-part ch 0 p (q ∷ r ∷ s ∷ cs) x hp (omega arith)
    ∙ decoded-part c1 1 q (r ∷ s ∷ cs) y hq (omega arith)
    ∙ decoded-part c2 2 r (s ∷ cs) z hr (omega arith)
    ∙ decoded-full c3 3 s cs w hs refl

octets-group :
    (ch a b c x y z w : ℕ)
    → a < 256
    → b < 256
    → c < 256
    → x ≡ a / 4
    → y ≡ a % 4 * 16 + b / 16
    → z ≡ b % 16 * 4 + c / 64
    → w ≡ c % 64
    → octets (shift_in (shift_in (shift_in (shift_in ch x) y) z) w) ≡ a ∷ b ∷ c ∷ []
octets-group ch a b c x y z w ha hb hc hx hy hz hw =
    ap₂ ◌∷◌ (omega arith) (ap₂ ◌∷◌ (omega arith) (ap (λ v. v ∷ []) (omega arith)))

decoded-quad :
    (ch a b c p q r s x y z w : ℕ) (cs : List ℕ)
    → (a < 256) × (b < 256) × (c < 256)
    → (x ≡ a / 4) × (y ≡ a % 4 * 16 + b / 16) × (z ≡ b % 16 * 4 + c / 64) × (w ≡ c % 64)
    → (sextet p ≡ some x) × (sextet q ≡ some y) × (sextet r ≡ some z) × (sextet s ≡ some w)
    → decoded ch 0 (p ∷ q ∷ r ∷ s ∷ cs)
      ≡ a ∷ b ∷ c ∷ decoded (shift_in (shift_in (shift_in (shift_in ch x) y) z) w) 0 cs
decoded-quad ch a b c p q r s x y z w cs h e d =
    decoded-group ch p q r s x y z w cs d.0 d.1 d.2 d.3
    ∙ ap (λ l. l ++ decoded (shift_in (shift_in (shift_in (shift_in ch x) y) z) w) 0 cs)
        (octets-group ch a b c x y z w h.0 h.1 h.2 e.0 e.1 e.2 e.3)

decoded-junk : (ch i : ℕ) (junk : List ℕ) → All (λ c. sextet c ≡ none) junk → decoded ch i junk ≡ []
decoded-junk ch i [] h = unfold decoded in refl
decoded-junk ch i (c ∷ junk) h = decoded-skip ch i c junk h.0 ∙ decoded-junk ch i junk h.1

decoded-encode :
    (xs junk : List ℕ) (ch : ℕ)
    → All (λ x. x < 256) xs
    → All (λ c. sextet c ≡ none) junk
    → decoded ch 0 (encode xs ++ junk) ≡ xs ++ padding xs
unfolding encode padding
decoded-encode [] junk ch h k = decoded-junk ch 0 junk k
decoded-encode (a ∷ []) junk ch h k =
    decoded-quad ch a 0 0 _ _ _ _ (a / 4) (a % 4 * 16) 0 0 junk (omega arith) (omega arith) (
      sextet-letter (a / 4) (omega arith),
      sextet-letter (a % 4 * 16) (omega arith),
      sextet-pad,
      sextet-pad,
    )
    ∙ ap (λ l. a ∷ 0 ∷ 0 ∷ l) (decoded-junk _ 0 junk k)
decoded-encode (a ∷ b ∷ []) junk ch h k =
    decoded-quad ch a b 0 _ _ _ _ (a / 4) (a % 4 * 16 + b / 16) (b % 16 * 4) 0 junk (omega arith)
      (omega arith)
      (
        sextet-letter (a / 4) (omega arith),
        sextet-letter (a % 4 * 16 + b / 16) (omega arith),
        sextet-letter (b % 16 * 4) (omega arith),
        sextet-pad,
      )
    ∙ ap (λ l. a ∷ b ∷ 0 ∷ l) (decoded-junk _ 0 junk k)
decoded-encode (a ∷ b ∷ c ∷ xs) junk ch h k =
    decoded-quad ch a b c _ _ _ _ (a / 4) (a % 4 * 16 + b / 16) (b % 16 * 4 + c / 64) (c % 64)
      (encode xs ++ junk) (omega arith) (omega arith)
      (
        sextet-letter (a / 4) (omega arith),
        sextet-letter (a % 4 * 16 + b / 16) (omega arith),
        sextet-letter (b % 16 * 4 + c / 64) (omega arith),
        sextet-letter (c % 64) (omega arith),
      )
    ∙ ap (λ l. a ∷ b ∷ c ∷ l) (decoded-encode xs junk _ h.1.1.1 k)

letter-ne-nul : (t : ℕ) → letter t ≢ 0
unfolding letter
letter-ne-nul t h = ground arith

encode-ne-nul : (xs : List ℕ) → All (λ c. c ≢ 0) (encode xs)
unfolding encode
encode-ne-nul [] = tt
encode-ne-nul (a ∷ []) = (letter-ne-nul (a / 4), (letter-ne-nul (a % 4 * 16), omega arith))
encode-ne-nul (a ∷ b ∷ []) = (
  letter-ne-nul (a / 4),
  (letter-ne-nul (a % 4 * 16 + b / 16), (letter-ne-nul (b % 16 * 4), omega arith)),
)
encode-ne-nul (a ∷ b ∷ c ∷ xs) = (
  letter-ne-nul (a / 4),
  (
    letter-ne-nul (a % 4 * 16 + b / 16),
    (letter-ne-nul (b % 16 * 4 + c / 64), (letter-ne-nul (c % 64), encode-ne-nul xs)),
  ),
)

All-append-ne_nul :
    (xs ys : List ℕ) → All (λ c. c ≢ 0) xs → All (λ c. c ≢ 0) ys → All (λ c. c ≢ 0) (xs ++ ys)
All-append-ne_nul [] ys h k = k
All-append-ne_nul (x ∷ xs) ys h k = (h.0, All-append-ne_nul xs ys h.1 k)

-- `decodeBase64` turns the base64 text of any bytes, whatever characters outside the alphabet
-- follow it (such as the line end of a header), back into those bytes: the buffer then holds them
-- at its front, with the NULs of the padding and one more NUL behind them.
pub decode_base64-encode :
    (xs junk rest : List ℕ)
    → All (λ x. x < 256) xs
    → All (λ c. sextet c ≡ none) junk
    → All (λ c. c ≢ 0) junk
    → Holds (xs ++ padding xs) (decode_base64 ((encode xs ++ junk) ++ 0 ∷ rest))
decode_base64-encode xs junk rest h k nz =
    subst (λ l. Holds l (decode_base64 ((encode xs ++ junk) ++ 0 ∷ rest)))
      (decoded-encode xs junk 0 h k)
      (decode_base64_lem (encode xs ++ junk) rest
        (All-append-ne_nul (encode xs) junk (encode-ne-nul xs) nz))
