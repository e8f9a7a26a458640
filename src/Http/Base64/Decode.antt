-- ===== src/Http/Base64/Decode.antt =====
-- What decodeBase64 computes, as a function on strings, and that the in-place loop agrees with it.
use raspberry_car.Base.{
  ℕ, zero, suc, ◌+◌, ◌<◌, ◌≡◌, ◌≢◌, refl, ◌∙◌, List, [], ◌∷◌, ◌++◌, append_assoc, append-nil,
  Option, none, some, get_elem?, set, take, length, All, inl, inr, Option-cases, lt_length-drop,
  length-append, arith, ℕ_discrete,
}
use raspberry_car.Http.Base64.{sextet, shift_in, store3, decode_loop, decode_base64}
use raspberry_car.Http.Base64.Quads.{
  State, octets, decoded, State-here, State-end, State-unread, State-skip, State-part,
  take-set_next, take-store3, drop-store3,
}

State-full :
    {mem : List ℕ} {out pos i : ℕ} {written rest : List ℕ} (c ch : ℕ) (s : List ℕ)
    → State mem out pos i written (c ∷ s) rest
    → i + 1 ≡ 4
    → State (store3 mem out ch) (out + 3) (pos + 1) 0 (written ++ octets ch) s rest
State-full {mem} {out} {pos} {i} {written} {rest} c ch s v e = record {
  unread = drop-store3 mem out ch (pos + 1) (omega (arith, v.behind)) ∙ State-unread c s v;
  front =
      take-store3 mem written out ch v.front
        (omega (arith, v.behind, lt_length-drop mem pos v.unread));
  size = omega (arith, length-append written (octets ch), v.size);
  behind = omega (arith, v.behind);
  small = omega arith;
}

-- `r` is a buffer that holds `text` and a NUL at its front.
abbrev pub Holds : List ℕ → Option (List ℕ) → Type 0
Holds text r = (mem : List ℕ) × (r ≡ some mem) × (take (length text + 1) mem ≡ text ++ 0 ∷ [])

loop-end :
    (fuel ch : ℕ) (mem : List ℕ) (out pos i : ℕ) (written rest : List ℕ)
    → State mem out pos i written [] rest
    → Holds (written ++ []) (decode_loop (suc fuel) mem out pos ch i)
unfolding decode_loop
loop-end fuel ch mem out pos i written rest v = (
  set mem out 0,
  ground (arith, State-end v),
  rw append-nil (
      take-set_next mem written out (length written + 1) 0 (omega (arith, v.size)) v.front
        (omega (arith, v.behind, lt_length-drop mem pos v.unread))),
)

-- One round of the loop at a character that is not NUL.
module _ (fuel ch : ℕ) (mem : List ℕ) (out pos i c : ℕ) (here : get_elem? mem pos ≡ some c)
    (ne : c ≢ 0) where
  loop-skip :
      sextet c ≡ none
      → decode_loop (suc fuel) mem out pos ch i ≡ decode_loop fuel mem out (pos + 1) ch i
  unfolding decode_loop
  loop-skip h = ground arith

  loop-part :
      (t : ℕ)
      → sextet c ≡ some t
      → i + 1 ≢ 4
      → decode_loop (suc fuel) mem out pos ch i
        ≡ decode_loop fuel mem out (pos + 1) (shift_in ch t) (i + 1)
  unfolding decode_loop
  loop-part t h k = ground arith

  loop-full :
      (t : ℕ)
      → sextet c ≡ some t
      → i + 1 ≡ 4
      → decode_loop (suc fuel) mem out pos ch i
        ≡ decode_loop fuel (store3 mem out (shift_in ch t)) (out + 3) (pos + 1) (shift_in ch t) 0
  unfolding decode_loop
  loop-full t h k = ground arith

module _ (ch i c : ℕ) (cs : List ℕ) where
  pub decoded-skip : sextet c ≡ none → decoded ch i (c ∷ cs) ≡ decoded ch i cs
  unfolding decoded
  decoded-skip h = ground arith

  pub decoded-part :
      (t : ℕ)
      → sextet c ≡ some t
      → i + 1 ≢ 4
      → decoded ch i (c ∷ cs) ≡ decoded (shift_in ch t) (i + 1) cs
  unfolding decoded
  decoded-part t h k = ground arith

  pub decoded-full :
      (t : ℕ)
      → sextet c ≡ some t
      → i + 1 ≡ 4
      → decoded ch i (c ∷ cs) ≡ octets (shift_in ch t) ++ decoded (shift_in ch t) 0 cs
  unfolding decoded
  decoded-full t h k = ground arith

loop_lem :
    (fuel ch : ℕ) (mem : List ℕ) (out pos i : ℕ) (written s rest : List ℕ)
    → All (λ c. c ≢ 0) s
    → length s < fuel
    → State mem out pos i written s rest
    → Holds (written ++ decoded ch i s) (decode_loop fuel mem out pos ch i)
loop_lem zero ch mem out pos i written s rest nz f v = absurd (omega arith)
loop_lem (suc fuel) ch mem out pos i written [] rest nz f v =
    unfold decoded in loop-end fuel ch mem out pos i written rest v
loop_lem (suc fuel) ch mem out pos i written (c ∷ s) rest nz f v = elim (Option-cases (sextet c)) [
  | inl h ↦ rw (decoded-skip ch i c s h) (
      rw (loop-skip fuel ch mem out pos i c (State-here c s v) nz.0 h)
        (loop_lem fuel ch mem out (pos + 1) i written s rest nz.1 (omega arith) (State-skip c s v)))
  | inr (t, h) ↦ elim (ℕ_discrete (i + 1) 4) [
    | yes k ↦ rw (decoded-full ch i c s t h k) (
        rw (loop-full fuel ch mem out pos i c (State-here c s v) nz.0 t h k) (
          rw (← append_assoc) (
            loop_lem fuel (shift_in ch t) (store3 mem out (shift_in ch t)) (out + 3) (pos + 1) 0
              (written ++ octets (shift_in ch t)) s rest nz.1 (omega arith)
              (State-full c (shift_in ch t) s v k))))
    | no k ↦ rw (decoded-part ch i c s t h k) (
        rw (loop-part fuel ch mem out pos i c (State-here c s v) nz.0 t h k) (
          loop_lem fuel (shift_in ch t) mem out (pos + 1) (i + 1) written s rest nz.1 (omega arith)
            (State-part c s v k)))
  ]
]

-- On every string, wherever its buffer goes on behind the NUL, `decodeBase64` reads and writes
-- inside the buffer and leaves there the bytes that the text decodes to, with a NUL behind them.
pub decode_base64_lem :
    (s rest : List ℕ) → All (λ c. c ≢ 0) s → Holds (decoded 0 0 s) (decode_base64 (s ++ 0 ∷ rest))
unfolding decode_base64
decode_base64_lem s rest nz =
    loop_lem (length (s ++ 0 ∷ rest)) 0 (s ++ 0 ∷ rest) 0 0 0 [] s rest nz
      (omega (arith, length-append s (0 ∷ rest)))
      (record {
        unread = refl;
        front = refl;
        size = refl;
        behind = omega arith;
        small = omega arith;
      })
