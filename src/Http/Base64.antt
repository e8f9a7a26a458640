-- ===== src/Http/Base64.antt =====
-- decodeBase64: the in-place decoding of the credentials that a client sends.
pub mod Decode
pub mod Quads
pub mod Encode
use raspberry_car.Base.{
  ℕ, zero, suc, ◌+◌, ◌-◌, ◌*◌, ◌/◌, ◌%◌, ◌^◌, Bool, true, false, ◌&&◌, List, [], ◌∷◌, Option, none,
  some, leb, ◌==◌, if◌then◌else◌, get_elem?, set, length,
}

-- The six bits that a character stands for; `none` is the `continue` of the source.
unfoldable pub sextet : ℕ → Option ℕ
sextet t =
    if leb b'0' t && leb t b'9'
    then some (t - b'0' + 52)
    else if leb b'A' t && leb t b'Z'
    then some (t - b'A')
    else if leb b'a' t && leb t b'z'
    then some (t - b'a' + 26)
    else if t == b'+'
    then some 62
    else if t == b'/'
    then some 63
    else if t == b'='
    then some 0
    else none

-- `(ch << 6) | t` on an `unsigned`, for `t` below 64.
abbrev pub shift_in : ℕ → ℕ → ℕ
shift_in ch t = ch * 64 % 2 ^ 32 + t

-- The three `*data++ = (char)…` of a full group.
abbrev pub store3 : List ℕ → ℕ → ℕ → List ℕ
store3 mem out ch =
    set (set (set mem out (ch / 2 ^ 16 % 256)) (out + 1) (ch / 2 ^ 8 % 256)) (out + 2) (ch % 256)

-- The loop: `pos` and `out` are the offsets of `in` and `data`, which point into one buffer.
-- `none` is a read outside the buffer.
unfoldable pub decode_loop : ℕ → List ℕ → ℕ → ℕ → ℕ → ℕ → Option (List ℕ)
decode_loop zero mem out pos ch i = none
decode_loop (suc fuel) mem out pos ch i = elim (get_elem? mem pos) [
  | none ↦ none
  | some c ↦
      let next : Option (List ℕ) = elim (sextet c) [
        | none ↦ decode_loop fuel mem out (pos + 1) ch i
        | some t ↦
            let ch' = shift_in ch t in
            let full = decode_loop fuel (store3 mem out ch') (out + 3) (pos + 1) ch' 0 in
            let part = decode_loop fuel mem out (pos + 1) ch' (i + 1) in
            if i + 1 == 4 then full else part
      ] in
      if c == 0 then some (set mem out 0) else next
]

unfoldable pub decode_base64 : List ℕ → Option (List ℕ)
unfolding decode_loop sextet
decode_base64 mem = decode_loop (length mem) mem 0 0 0 0
