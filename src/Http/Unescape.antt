-- ===== src/Http/Unescape.antt =====
-- hex_char_to_int and unescape: the in-place decoding of %XX in a request parameter.
pub mod Decode
pub mod Percent
use raspberry_car.Base.{
  ℕ, zero, suc, ◌+◌, ◌-◌, ◌*◌, Bool, true, false, ◌&&◌, List, [], ◌∷◌, Option, none, some, leb, ltb,
  ◌==◌, not, if◌then◌else◌, get_elem?, set, length,
}

-- `none` is the -1 of the source.
unfoldable pub hex_char_to_int : ℕ → Option ℕ
hex_char_to_int c =
    if leb b'0' c && leb c b'9'
    then some (c - b'0')
    else if leb b'a' c && leb c b'f'
    then some (c - b'a' + 10)
    else if leb b'A' c && leb c b'F'
    then some (c - b'A' + 10)
    else none

-- How a call ends: a read or a write outside the buffer, the return value -1, or 0 with the buffer.
pub data Outcome : Type 0 where
  fault : Outcome
  failed : Outcome
  done : List ℕ → Outcome

-- Reads of `source[i]`: both pointers of the source name the one buffer.
abbrev pub read : List ℕ → ℕ → (ℕ → Outcome) → Outcome
read mem i k = elim (get_elem? mem i) [ none ↦ fault | some c ↦ k c ]

-- A write to `destination[i]`.
abbrev pub store : List ℕ → ℕ → ℕ → (List ℕ → Outcome) → Outcome
store mem i v k = let next = k (set mem i v) in if ltb i (length mem) then next else fault

abbrev pub or_fail : Option ℕ → (ℕ → Outcome) → Outcome
or_fail o k = elim o [ none ↦ failed | some v ↦ k v ]

-- The loop; `len` is `strlen(string)`, and the fuel is the number of rounds that may be left.
unfoldable pub unescape_loop : ℕ → ℕ → List ℕ → ℕ → ℕ → Outcome
unescape_loop zero len mem dst src = fault
unescape_loop (suc fuel) len mem dst src =
    if not (ltb src len)
    then store mem dst 0 (λ m. done m)
    else read mem src (λ c.
      let plain = store mem dst c (λ m. unescape_loop fuel len m (dst + 1) (src + 1)) in
      let escaped : Outcome = read mem (src + 1) (λ a. or_fail (hex_char_to_int a) (λ hi.
        store mem dst (hi * 16) (λ half. read half (src + 2) (λ b.
          or_fail (hex_char_to_int b) (λ lo.
            store half dst (hi * 16 + lo)
              (λ m. unescape_loop fuel len m (dst + 1) (src + 3))))))) in
      if not (c == b'%') then plain else if ltb len (src + 2) then failed else escaped)

unfoldable pub strlen : List ℕ → ℕ
strlen [] = 0
strlen (c ∷ cs) = if c == 0 then 0 else suc (strlen cs)

unfoldable pub unescape : List ℕ → Outcome
unfolding unescape_loop strlen hex_char_to_int
unescape mem = unescape_loop (strlen mem + 1) (strlen mem) mem 0 0
