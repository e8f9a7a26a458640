-- ===== src/Uvc/Picture.antt =====
-- v4l2uvc.c: is_huffman and memcpy_picture, which completes the frame of a camera.
pub mod Insert
pub mod Complete
use raspberry_car.Base.{
  ℕ, zero, suc, ◌+◌, ◌-◌, ◌*◌, Bool, true, false, List, [], ◌∷◌, ◌++◌, Option, none, some, leb,
  ◌==◌, if◌then◌else◌, take, drop, length,
}
use raspberry_car.Uvc.Tables.{dht_data}

-- `(ptbuf[0] << 8) | ptbuf[1]`, for bytes.
abbrev pub word : ℕ → ℕ → ℕ
word a b = a * 256 + b

-- The loop of `is_huffman` on the memory from `ptbuf` on; `none` is a read outside it. The number
-- is that of the rounds before `i` exceeds its limit.
unfoldable pub huffman_loop : ℕ → List ℕ → Option Bool
huffman_loop n [] = none
huffman_loop n (a ∷ []) = none
huffman_loop zero (a ∷ b ∷ rest) = some false
huffman_loop (suc n) (a ∷ b ∷ rest) =
    let next = huffman_loop n (b ∷ rest) in
    if word a b == 0xffda then some false else if word a b == 0xffc4 then some true else next

abbrev pub huffman_rounds : ℕ
huffman_rounds = 2049

unfoldable pub is_huffman : List ℕ → Option Bool
unfolding huffman_loop
is_huffman mem = huffman_loop huffman_rounds mem

-- The loop that looks for the start of the frame, from position `k` on and with `left` bytes up to
-- `ptlimit`; the position where it stops.
unfoldable pub frame_loop : ℕ → ℕ → List ℕ → Option ℕ
frame_loop left k [] = none
frame_loop left k (a ∷ []) = none
frame_loop zero k (a ∷ b ∷ rest) = some k
frame_loop (suc left) k (a ∷ b ∷ rest) =
    let next = frame_loop left (k + 1) (b ∷ rest) in if word a b == 0xffc0 then some k else next

-- A `memcpy` of `n` bytes from position `i` on.
unfoldable pub copy_from : List ℕ → ℕ → ℕ → Option (List ℕ)
copy_from mem i n = if leb (i + n) (length mem) then some (take n (drop i mem)) else none

-- The bytes that go to `out`; their number is the return value. The memory is that from `buf` on.
unfoldable pub insert_tables : List ℕ → ℕ → ℕ → Option (List ℕ)
unfolding copy_from
insert_tables mem size sizein =
    let inserted : Option (List ℕ) = elim (copy_from mem 0 sizein) [
      | none ↦ none
      | some front ↦ elim (copy_from mem sizein (size - sizein)) [
        | none ↦ none
        | some back ↦ some (front ++ (dht_data ++ back))
      ]
    ] in
    if leb size sizein then some [] else inserted

unfoldable pub memcpy_picture : List ℕ → ℕ → Option (List ℕ)
unfolding is_huffman frame_loop insert_tables copy_from
memcpy_picture mem size = elim (is_huffman mem) [
  | none ↦ none
  | some true ↦ copy_from mem 0 size
  | some false ↦ elim (frame_loop size 0 mem) [
    | none ↦ none
    | some sizein ↦ insert_tables mem size sizein
  ]
]
