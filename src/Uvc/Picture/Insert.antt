-- ===== src/Uvc/Picture/Insert.antt =====
-- What memcpy_picture makes of a frame.
use raspberry_car.Base.{
  ℕ, zero, suc, ◌+◌, ◌-◌, ◌≤◌, ◌<◌, ◌≡◌, ◌≢◌, refl, ap, ◌∙◌, true, false, List, [], ◌∷◌, ◌++◌,
  append_assoc, none, some, leb, drop, length, length-append, drop-append, take-append, arith,
}
use raspberry_car.Uvc.Tables.{dht_data}
use raspberry_car.Uvc.Picture.{
  word, huffman_loop, huffman_rounds, is_huffman, frame_loop, copy_from, insert_tables,
  memcpy_picture,
}

-- No two bytes of the text are one of the three markers: start of scan, tables, start of frame.
abbrev pub Unmarked : List ℕ → Type 0
Unmarked [] = Unit {0}
Unmarked (a ∷ []) = Unit {0}
Unmarked (a ∷ b ∷ rest) =
    (word a b ≢ 0xffda) × (word a b ≢ 0xffc4) × (word a b ≢ 0xffc0) × Unmarked (b ∷ rest)

-- One byte of a text without markers is passed over.
huffman_loop_next :
    (a b n : ℕ) (rest : List ℕ)
    → word a b ≢ 0xffda
    → word a b ≢ 0xffc4
    → huffman_loop (suc n) (a ∷ b ∷ rest) ≡ huffman_loop n (b ∷ rest)
unfolding huffman_loop
huffman_loop_next a b n rest h k = ground arith

-- The tables are found behind a text without markers.
huffman_loop-true :
    (pre rest : List ℕ) (n : ℕ)
    → Unmarked (pre ++ 0xff ∷ [])
    → length pre < n
    → huffman_loop n (pre ++ 0xff ∷ 0xc4 ∷ rest) ≡ some true
huffman_loop-true pre rest zero h k = absurd (omega arith)
huffman_loop-true [] rest (suc n) h k = unfold huffman_loop in refl
huffman_loop-true (a ∷ []) rest (suc n) h k =
    huffman_loop_next a 0xff n (0xc4 ∷ rest) h.0 h.1 ∙ huffman_loop-true [] rest n tt (omega arith)
huffman_loop-true (a ∷ b ∷ pre) rest (suc n) h k =
    huffman_loop_next a b n (pre ++ 0xff ∷ 0xc4 ∷ rest) h.0 h.1
    ∙ huffman_loop-true (b ∷ pre) rest n h.3 (omega arith)

frame_loop_next :
    (a b left k : ℕ) (rest : List ℕ)
    → word a b ≢ 0xffc0
    → frame_loop (suc left) k (a ∷ b ∷ rest) ≡ frame_loop left (k + 1) (b ∷ rest)
unfolding frame_loop
frame_loop_next a b left k rest h = ground arith

-- So is the start of the frame.
frame_loop-length :
    (pre rest : List ℕ) (left k : ℕ)
    → Unmarked (pre ++ 0xff ∷ [])
    → length pre < left
    → frame_loop left k (pre ++ 0xff ∷ 0xc0 ∷ rest) ≡ some (k + length pre)
frame_loop-length pre rest zero k h l = absurd (omega arith)
frame_loop-length [] rest (suc left) k h l = unfold frame_loop in ap some (omega arith)
frame_loop-length (a ∷ []) rest (suc left) k h l =
    frame_loop_next a 0xff left k (0xc0 ∷ rest) h.2
    ∙ frame_loop-length [] rest left (k + 1) tt (omega arith)
    ∙ ap some (omega arith)
frame_loop-length (a ∷ b ∷ pre) rest (suc left) k h l =
    frame_loop_next a b left k (pre ++ 0xff ∷ 0xc0 ∷ rest) h.2
    ∙ frame_loop-length (b ∷ pre) rest left (k + 1) h.3 (omega arith)
    ∙ ap some (omega arith)

copy_from-part :
    (xs ys zs : List ℕ) (i n : ℕ)
    → i ≡ length xs
    → n ≡ length ys
    → copy_from (xs ++ (ys ++ zs)) i n ≡ some ys
unfolding copy_from
copy_from-part xs ys zs i n e k =
    let fits : leb (i + n) (length (xs ++ (ys ++ zs))) ≡ true =
      ground (arith, length-append xs (ys ++ zs), length-append ys zs) in
    rw fits (rw (drop-append xs (ys ++ zs) i e, take-append ys zs n k))

-- A frame that has its tables is copied as it is.
pub memcpy_picture-kept :
    (frame behind : List ℕ)
    → is_huffman (frame ++ behind) ≡ some true
    → memcpy_picture (frame ++ behind) (length frame) ≡ some frame
unfolding memcpy_picture
memcpy_picture-kept frame behind h =
    rw (memcpy_picture, h) (copy_from-part [] frame behind 0 (length frame) refl refl)

-- The frame from its start marker on.
abbrev pub start_of_frame : List ℕ → List ℕ
start_of_frame post = 0xff ∷ 0xc0 ∷ post

insert_tables-start :
    (pre post behind : List ℕ)
    → insert_tables
        (pre ++ (start_of_frame post ++ behind))
        (length (pre ++ start_of_frame post))
        (length pre)
      ≡ some (pre ++ (dht_data ++ start_of_frame post))
unfolding insert_tables
insert_tables-start pre post behind =
    let n = length-append pre (start_of_frame post) in
    let inside : leb (length (pre ++ start_of_frame post)) (length pre) ≡ false =
      ground (arith, n) in
    rw (
      inside,
      copy_from-part [] pre (start_of_frame post ++ behind) 0 (length pre) refl refl,
      copy_from-part pre (start_of_frame post) behind (length pre)
          (length (pre ++ start_of_frame post) - length pre) refl (omega (arith, n)),
    )

-- In a frame without tables, whose first marker is the start of the frame, the tables are put
-- before that marker, and nothing else is changed; whatever follows the frame in the memory.
pub memcpy_picture-inserted :
    (pre post behind : List ℕ)
    → Unmarked (pre ++ 0xff ∷ [])
    → is_huffman (pre ++ (start_of_frame post ++ behind)) ≡ some false
    → memcpy_picture (pre ++ (start_of_frame post ++ behind)) (length (pre ++ start_of_frame post))
      ≡ some (pre ++ (dht_data ++ start_of_frame post))
unfolding memcpy_picture
memcpy_picture-inserted pre post behind u h =
    let n = length-append pre (start_of_frame post) in
    rw
      (
        memcpy_picture,
        h,
        frame_loop-length pre (post ++ behind) (length (pre ++ start_of_frame post)) 0 u
            (omega (arith, n)),
      )
      (ap
          (insert_tables (pre ++ (start_of_frame post ++ behind))
            (length (pre ++ start_of_frame post)))
          (zero_add (length pre))
        ∙ insert_tables-start pre post behind)
  where
    zero_add : (n : ℕ) → 0 + n ≡ n
    zero_add n = omega arith

-- The completed frame is a frame with tables: copied again, it stays as it is.
pub memcpy_picture_again :
    (pre post behind : List ℕ)
    → Unmarked (pre ++ 0xff ∷ [])
    → length pre < huffman_rounds
    → let out = pre ++ (dht_data ++ start_of_frame post) in
      memcpy_picture (out ++ behind) (length out) ≡ some out
memcpy_picture_again pre post behind u short =
    let rest = drop 2 dht_data ++ start_of_frame post in
    memcpy_picture-kept (pre ++ (dht_data ++ start_of_frame post)) behind (
      unfold is_huffman in
      ap (huffman_loop huffman_rounds) (append_assoc pre (0xff ∷ 0xc4 ∷ rest) behind)
      ∙ huffman_loop-true pre (rest ++ behind) huffman_rounds u short)

huffman_loop-none :
    (text : List ℕ) (n : ℕ) → Unmarked text → length text ≤ n + 1 → huffman_loop n text ≡ none
huffman_loop-none [] n u h = unfold huffman_loop in refl
huffman_loop-none (a ∷ []) n u h = unfold huffman_loop in refl
huffman_loop-none (a ∷ b ∷ text) zero u h = absurd (omega arith)
huffman_loop-none (a ∷ b ∷ text) (suc n) u h =
    huffman_loop_next a b n text u.0 u.1 ∙ huffman_loop-none (b ∷ text) n u.3 (omega arith)

-- The search for the tables does not look at the size of the frame: where none of the markers
-- stands in a memory of at most 2050 bytes, it reads behind that memory, whatever the size is.
pub memcpy_picture_over_read :
    (mem : List ℕ) (size : ℕ) → Unmarked mem → length mem ≤ 2050 → memcpy_picture mem size ≡ none
unfolding memcpy_picture is_huffman
memcpy_picture_over_read mem size u short =
    rw (memcpy_picture, huffman_loop-none mem huffman_rounds u short)
