-- ===== src/Http/Unescape/Percent.antt =====
-- What unescape decodes, and what its loop keeps and does in a round.
use raspberry_car.Base.{
  ℕ, suc, ◌+◌, ◌*◌, ◌≤◌, ◌<◌, ◌≡◌, ◌≢◌, refl, sym, ap, ◌∙◌, List, [], ◌∷◌, ◌++◌, append_assoc,
  Option, none, some, ◌==◌, if◌then◌else◌, get_elem?, set, take, drop, length, drop-set, take-set,
  get_elem?-drop, drop-drop, drop-append, lt_length-drop, length-append, length-set, arith,
}
use raspberry_car.Http.Unescape.{hex_char_to_int, Outcome, failed, done, unescape_loop}

-- The octet that two hexadecimal digits write.
unfoldable pub octet : ℕ → ℕ → Option ℕ
octet a b = elim (hex_char_to_int a) [
  | none ↦ none
  | some hi ↦ elim (hex_char_to_int b) [ none ↦ none | some lo ↦ some (hi * 16 + lo) ]
]

abbrev pub prepend : Option ℕ → Option (List ℕ) → Option (List ℕ)
prepend none t = none
prepend (some c) none = none
prepend (some c) (some t) = some (c ∷ t)

-- RFC 3986 percent decoding; `none` for a `%` without two hexadecimal digits behind it.
unfoldable pub percent_decode : List ℕ → Option (List ℕ)
percent_decode [] = some []
percent_decode (c ∷ []) = if c == b'%' then none else some (c ∷ [])
percent_decode (c ∷ a ∷ []) =
    let rest = percent_decode (a ∷ []) in if c == b'%' then none else prepend (some c) rest
percent_decode (c ∷ a ∷ b ∷ cs) =
    let plain = prepend (some c) (percent_decode (a ∷ b ∷ cs)) in
    let escaped = prepend (octet a b) (percent_decode cs) in if c == b'%' then escaped else plain

-- `r` is what the source does for the decoding `o`, with `out` already written.
abbrev pub Agrees : List ℕ → Option (List ℕ) → Outcome → Type 0
Agrees out none r = r ≡ failed
Agrees out (some t) r =
    (mem : List ℕ) × (r ≡ done mem) × (take (length out + length t + 1) mem ≡ out ++ (t ++ 0 ∷ []))

pub Agrees-prepend :
    (out : List ℕ) (c : ℕ) (o : Option (List ℕ)) (r : Outcome)
    → Agrees (out ++ c ∷ []) o r
    → Agrees out (prepend (some c) o) r
Agrees-prepend out c none r h = h
Agrees-prepend out c (some t) r (mem, e, p) =
    let n : length out + length (c ∷ t) + 1 ≡ length (out ++ c ∷ []) + length t + 1 =
      omega (arith, length-append out (c ∷ [])) in
    (mem, e, rw n (p ∙ append_assoc out (c ∷ []) (t ++ 0 ∷ [])))

-- The state of the loop: `s` is unread, and `out` written, in the one buffer.
pub record State (len : ℕ) (mem : List ℕ) (dst src : ℕ) (out s rest : List ℕ) : Type 0 where
  pub unread : drop src mem ≡ s ++ 0 ∷ rest
  pub written : take dst mem ≡ out
  pub size : length out ≡ dst
  pub behind : dst ≤ src
  pub left : src + length s ≡ len

module _ {len : ℕ} {mem : List ℕ} {dst src : ℕ} {out rest : List ℕ} where
  pub State-read :
      (k c : ℕ) (s : List ℕ)
      → State len mem dst src out s rest
      → get_elem? (s ++ 0 ∷ rest) k ≡ some c
      → get_elem? mem (src + k) ≡ some c
  State-read k c s v h = get_elem?-drop mem src k ∙ ap (λ l. get_elem? l k) v.unread ∙ h

  -- A read past the write position does not see the write.
  pub State-read-set :
      (k c x : ℕ) (s : List ℕ)
      → State len mem dst src out s rest
      → 0 < k
      → get_elem? (s ++ 0 ∷ rest) k ≡ some c
      → get_elem? (set mem dst x) (src + k) ≡ some c
  State-read-set k c x s v pos h =
      let same = drop-set mem dst (src + k) x (omega arith) in
      let e : src + k ≡ (src + k) + 0 = omega arith in
      rw e (
        get_elem?-drop (set mem dst x) (src + k) 0
        ∙ ap (λ l. get_elem? l 0) same
        ∙ sym (get_elem?-drop mem (src + k) 0)
        ∙ rw (← e) (State-read k c s v h))

  pub State-room : (s : List ℕ) → State len mem dst src out s rest → dst < length mem
  State-room [] v = omega (arith, lt_length-drop mem src v.unread)
  State-room (x ∷ s) v = omega (arith, lt_length-drop mem src v.unread)

  -- `pre` is consumed, and `c` written for it.
  pub State-step :
      (c : ℕ) (pre s : List ℕ)
      → 0 < length pre
      → State len mem dst src out (pre ++ s) rest
      → State len (set mem dst c) (dst + 1) (src + length pre) (out ++ c ∷ []) s rest
  State-step c pre s pos v = record {
    unread =
        drop-set mem dst (src + length pre) c (omega arith)
        ∙ drop-drop mem src (length pre)
        ∙ ap (drop (length pre)) v.unread
        ∙ ap (drop (length pre)) (append_assoc pre s (0 ∷ rest))
        ∙ drop-append pre (s ++ 0 ∷ rest) (length pre) refl;
    written =
        let e : dst + 1 ≡ suc dst = omega arith in
        rw e (take-set mem dst c (State-room (pre ++ s) v) ∙ ap (λ l. l ++ c ∷ []) v.written);
    size = omega (arith, length-append out (c ∷ []), v.size);
    behind = omega (arith, v.behind);
    left = omega (arith, length-append pre s, v.left);
  }

  pub State-done : State len mem dst src out [] rest → Agrees out (some []) (done (set mem dst 0))
  State-done v = (
    set mem dst 0,
    refl,
    let e : length out + 0 + 1 ≡ suc dst = omega (arith, v.size) in
        rw e (take-set mem dst 0 (State-room [] v) ∙ ap (λ l. l ++ 0 ∷ []) v.written),
  )

pub percent_decode-plain :
    (c : ℕ) (s : List ℕ) → c ≢ b'%' → percent_decode (c ∷ s) ≡ prepend (some c) (percent_decode s)
unfolding percent_decode
percent_decode-plain c [] ne = ground arith
percent_decode-plain c (a ∷ []) ne = ground arith
percent_decode-plain c (a ∷ b ∷ s) ne = ground arith

-- One round of the loop, for each thing that may stand at `src`.
module _ (fuel len : ℕ) (mem : List ℕ) (dst src : ℕ) (more : src < len) where
  pub loop-plain :
      (c : ℕ)
      → get_elem? mem src ≡ some c
      → c ≢ b'%'
      → dst < length mem
      → unescape_loop (suc fuel) len mem dst src
        ≡ unescape_loop fuel len (set mem dst c) (dst + 1) (src + 1)
  unfolding unescape_loop
  loop-plain c r ne room = ground arith

  pub loop-short :
      get_elem? mem src ≡ some b'%'
      → len < src + 2
      → unescape_loop (suc fuel) len mem dst src ≡ failed
  unfolding unescape_loop
  loop-short r short = ground arith

  pub loop-bad :
      (a : ℕ)
      → get_elem? mem src ≡ some b'%'
      → get_elem? mem (src + 1) ≡ some a
      → hex_char_to_int a ≡ none
      → unescape_loop (suc fuel) len mem dst src ≡ failed
  unfolding unescape_loop
  loop-bad a r r' bad = ground arith

  pub loop-bad_second :
      (a b hi : ℕ)
      → get_elem? mem src ≡ some b'%'
      → get_elem? mem (src + 1) ≡ some a
      → hex_char_to_int a ≡ some hi
      → dst < length mem
      → get_elem? (set mem dst (hi * 16)) (src + 2) ≡ some b
      → hex_char_to_int b ≡ none
      → unescape_loop (suc fuel) len mem dst src ≡ failed
  unfolding unescape_loop
  loop-bad_second a b hi r r' good room r'' bad = ground arith

  pub loop-escaped :
      (a b hi lo : ℕ)
      → src + 2 ≤ len
      → get_elem? mem src ≡ some b'%'
      → get_elem? mem (src + 1) ≡ some a
      → hex_char_to_int a ≡ some hi
      → dst < length mem
      → get_elem? (set mem dst (hi * 16)) (src + 2) ≡ some b
      → hex_char_to_int b ≡ some lo
      → unescape_loop (suc fuel) len mem dst src
        ≡ unescape_loop fuel len
            (set (set mem dst (hi * 16)) dst (hi * 16 + lo))
            (dst + 1)
            (src + 3)
  unfolding unescape_loop
  loop-escaped a b hi lo fits r r' good room r'' good' =
      ground (arith, length-set mem dst (hi * 16))
