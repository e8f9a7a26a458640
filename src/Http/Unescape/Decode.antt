-- ===== src/Http/Unescape/Decode.antt =====
-- In place, unescape computes percent decoding.
use raspberry_car.Base.{
  ℕ, ℕ_discrete, zero, suc, ◌+◌, ◌*◌, ◌<◌, ◌≡◌, ◌≢◌, refl, sym, false, List, [], ◌∷◌, ◌++◌, none,
  some, true, ltb, get_elem?, set, length, All, inl, inr, Option-cases, set-set, subst, arith,
}
use raspberry_car.Http.Unescape.{hex_char_to_int, unescape_loop, strlen, unescape}
use raspberry_car.Http.Unescape.Percent.{
  State, State-room, octet, prepend, percent_decode, Agrees, Agrees-prepend, State-read,
  State-read-set, State-step, State-done, percent_decode-plain, loop-plain, loop-short, loop-bad,
  loop-bad_second, loop-escaped,
}

abbrev Rest : ℕ → ℕ → Type 0
Rest fuel len =
    (mem : List ℕ) (dst src : ℕ) (out s rest : List ℕ)
    → All (λ c. c ≢ 0) s
    → length s < fuel
    → State len mem dst src out s rest
    → Agrees out (percent_decode s) (unescape_loop fuel len mem dst src)

octet-bad : (a b : ℕ) → hex_char_to_int a ≡ none → octet a b ≡ none
unfolding octet
octet-bad a b h = ground arith

octet-bad_second : (a b : ℕ) → hex_char_to_int b ≡ none → octet a b ≡ none
unfolding octet
octet-bad_second a b h = ground arith

octet-good :
    (a b hi lo : ℕ)
    → hex_char_to_int a ≡ some hi
    → hex_char_to_int b ≡ some lo
    → octet a b ≡ some (hi * 16 + lo)
unfolding octet
octet-good a b hi lo h k = ground arith

hex-nul : hex_char_to_int 0 ≡ none
unfolding hex_char_to_int
hex-nul = refl

module _ (fuel len : ℕ) (ih : Rest fuel len) (mem : List ℕ) (dst src : ℕ) (out rest : List ℕ) where
  State-here :
      (c : ℕ) (s : List ℕ) → State len mem dst src out (c ∷ s) rest → get_elem? mem src ≡ some c
  State-here c s v = let e : src ≡ src + 0 = omega arith in rw e (State-read 0 c (c ∷ s) v refl)

  loop-plain-Agrees :
      (c : ℕ) (s : List ℕ)
      → All (λ c. c ≢ 0) s
      → length s < fuel
      → c ≢ b'%'
      → State len mem dst src out (c ∷ s) rest
      → Agrees out (percent_decode (c ∷ s)) (unescape_loop (suc fuel) len mem dst src)
  loop-plain-Agrees c s nz f ne v =
      let more : src < len = omega (arith, v.left) in
      let here = State-here c s v in
      rw (percent_decode-plain c s ne) (
        rw (loop-plain fuel len mem dst src more c here ne (State-room (c ∷ s) v)) (
          Agrees-prepend out c (percent_decode s) _ (
            ih (set mem dst c) (dst + 1) (src + 1) (out ++ c ∷ []) s rest nz f
              (State-step c (c ∷ []) s (omega arith) v))))

  loop-octet-Agrees :
      (a b : ℕ) (s : List ℕ)
      → All (λ c. c ≢ 0) s
      → length s + 2 < fuel
      → State len mem dst src out (b'%' ∷ a ∷ b ∷ s) rest
      → Agrees out
          (prepend (octet a b) (percent_decode s))
          (unescape_loop (suc fuel) len mem dst src)
  loop-octet-Agrees a b s nz f v =
      let more : src < len = omega (arith, v.left) in
      let here = State-here b'%' (a ∷ b ∷ s) v in
      let next = State-read 1 a (b'%' ∷ a ∷ b ∷ s) v refl in
      let room = State-room (b'%' ∷ a ∷ b ∷ s) v in
      let third = λ (x : ℕ). State-read-set 2 b x (b'%' ∷ a ∷ b ∷ s) v (omega arith) refl in
      elim (Option-cases (hex_char_to_int a)) [
        | inl bad ↦ rw (octet-bad a b bad) (loop-bad fuel len mem dst src more a here next bad)
        | inr (hi, good) ↦ elim (Option-cases (hex_char_to_int b)) [
          | inl bad ↦ rw (octet-bad_second a b bad) (
              loop-bad_second fuel len mem dst src more a b hi here next good room (third (hi * 16))
                bad)
          | inr (lo, good') ↦ rw (octet-good a b hi lo good good') (
              rw
                (loop-escaped fuel len mem dst src more a b hi lo (omega (arith, v.left)) here next
                  good room (third (hi * 16)) good')
                (rw set-set (
                  Agrees-prepend out (hi * 16 + lo) (percent_decode s) _ (
                    ih (set mem dst (hi * 16 + lo)) (dst + 1) (src + 3) (out ++ (hi * 16 + lo) ∷ [])
                      s rest nz (omega arith)
                      (State-step (hi * 16 + lo) (b'%' ∷ a ∷ b ∷ []) s (omega arith) v)))))
        ]
      ]

  loop-escaped-Agrees :
      (s : List ℕ)
      → All (λ c. c ≢ 0) s
      → length s < fuel
      → State len mem dst src out (b'%' ∷ s) rest
      → Agrees out (percent_decode (b'%' ∷ s)) (unescape_loop (suc fuel) len mem dst src)
  unfolding percent_decode
  loop-escaped-Agrees [] nz f v =
      loop-short fuel len mem dst src (omega (arith, v.left)) (State-here b'%' [] v)
        (omega (arith, v.left))
  loop-escaped-Agrees (a ∷ []) nz f v =
      let more : src < len = omega (arith, v.left) in
      let here = State-here b'%' (a ∷ []) v in
      let next = State-read 1 a (b'%' ∷ a ∷ []) v refl in
      let room = State-room (b'%' ∷ a ∷ []) v in
      let nul = λ (x : ℕ). State-read-set 2 0 x (b'%' ∷ a ∷ []) v (omega arith) refl in
      elim (Option-cases (hex_char_to_int a)) [
        | inl bad ↦ loop-bad fuel len mem dst src more a here next bad
        | inr (hi, good) ↦
            loop-bad_second fuel len mem dst src more a 0 hi here next good room (nul (hi * 16))
              hex-nul
      ]
  loop-escaped-Agrees (a ∷ b ∷ s) nz f v = loop-octet-Agrees a b s nz.1.1 (omega arith) v

loop-end :
    (fuel len : ℕ) (mem : List ℕ) (dst src : ℕ) (out rest : List ℕ)
    → State len mem dst src out [] rest
    → Agrees out (some []) (unescape_loop (suc fuel) len mem dst src)
unfolding unescape_loop
loop-end fuel len mem dst src out rest v =
    let e : ltb src len ≡ false = ground (arith, v.left) in
    let room = State-room [] v in
    let inside : ltb dst (length mem) ≡ true = ground (arith, room) in rw (e, inside) (State-done v)

loop_lem : (fuel len : ℕ) → Rest fuel len
loop_lem zero len mem dst src out s rest nz f v = absurd (omega arith)
loop_lem (suc fuel) len mem dst src out [] rest nz f v =
    unfold percent_decode in loop-end fuel len mem dst src out rest v
loop_lem (suc fuel) len mem dst src out (c ∷ s) rest nz f v =
    let ih = loop_lem fuel len in
    elim (ℕ_discrete c b'%') [
      | yes e ↦
          subst
            (λ x.
              State len mem dst src out (x ∷ s) rest
              → Agrees out (percent_decode (x ∷ s)) (unescape_loop (suc fuel) len mem dst src))
            (sym e)
            (λ w. loop-escaped-Agrees fuel len ih mem dst src out rest s nz.1 (omega arith) w) v
      | no ne ↦ loop-plain-Agrees fuel len ih mem dst src out rest c s nz.1 (omega arith) ne v
    ]

strlen_lem : (s rest : List ℕ) → All (λ c. c ≢ 0) s → strlen (s ++ 0 ∷ rest) ≡ length s
unfolding strlen
strlen_lem [] rest nz = refl
strlen_lem (c ∷ s) rest nz = ground (arith, strlen_lem s rest nz.1)

-- On every string, wherever its buffer goes on behind the NUL, `unescape` reads and writes inside
-- the buffer, returns -1 exactly where percent decoding fails, and otherwise leaves the decoded
-- text, with a NUL behind it, at the front of the buffer.
pub unescape-percent_decode :
    (s rest : List ℕ) → All (λ c. c ≢ 0) s → Agrees [] (percent_decode s) (unescape (s ++ 0 ∷ rest))
unfolding unescape
unescape-percent_decode s rest nz = rw (strlen_lem s rest nz) (
    loop_lem (length s + 1) (length s) (s ++ 0 ∷ rest) 0 0 [] s rest nz (omega arith) (record {
      unread = refl;
      written = refl;
      size = refl;
      behind = omega arith;
      left = omega arith;
    }))
