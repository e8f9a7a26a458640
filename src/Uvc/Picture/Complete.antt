-- ===== src/Uvc/Picture/Complete.antt =====
-- memcpy_picture against a description of the completed frame.
use raspberry_car.Base.{
  ℕ, zero, suc, ◌+◌, ◌-◌, ◌≤◌, ◌<◌, ◌≡◌, ◌⊎◌, refl, sym, ap, ◌∙◌, Bool, true, false, List, [], ◌∷◌,
  ◌++◌, some, leb, ◌==◌, if◌then◌else◌, take, take_all, drop, length, length-append, length-drop,
  take-append, take-append_le, drop-append_le, Bool-cases, inl, inr, arith,
}
use raspberry_car.Uvc.Tables.{dht_data}
use raspberry_car.Uvc.Picture.{
  word, huffman_loop, is_huffman, huffman_rounds, frame_loop, copy_from, insert_tables,
  memcpy_picture,
}

-- The frame with tables before its first marker for the start of a frame.
unfoldable pub with_tables : List ℕ → List ℕ
with_tables [] = []
with_tables (a ∷ []) = a ∷ []
with_tables (a ∷ b ∷ bytes) =
    let rest = with_tables (b ∷ bytes) in
    if word a b == 0xffc0 then dht_data ++ a ∷ b ∷ bytes else a ∷ rest

-- The completed frame: with tables of its own, it stays as it is.
unfoldable pub complete : List ℕ → List ℕ
unfolding with_tables
complete bytes = elim (is_huffman bytes) [ some true ↦ bytes | _ ↦ with_tables bytes ]

-- A marker for the start of a frame stands in these bytes.
unfoldable pub has_start : List ℕ → Bool
has_start [] = false
has_start (a ∷ []) = false
has_start (a ∷ b ∷ bytes) =
    let rest = has_start (b ∷ bytes) in if word a b == 0xffc0 then true else rest

-- The frame has its tables in its first 2050 bytes; or it has none before its first scan, but a
-- start of the frame.
abbrev pub IsComplete : List ℕ → Type 0
IsComplete bytes =
    (is_huffman bytes ≡ some true) ⊎ ((is_huffman bytes ≡ some false) × (has_start bytes ≡ true))

-- What is found in the front of the memory is found in the memory.
huffman_loop-append :
    (n : ℕ) (mem rest : List ℕ) (b : Bool)
    → huffman_loop n mem ≡ some b
    → huffman_loop n (mem ++ rest) ≡ some b
unfolding huffman_loop
huffman_loop-append n [] rest b h = cc
huffman_loop-append n (x ∷ []) rest b h = cc
huffman_loop-append zero (x ∷ y ∷ mem) rest b h = h
huffman_loop-append (suc n) (x ∷ y ∷ mem) rest b h =
    ground (arith, huffman_loop-append n (y ∷ mem) rest b)

is_huffman-append :
    (mem rest : List ℕ) (b : Bool) → is_huffman mem ≡ some b → is_huffman (mem ++ rest) ≡ some b
unfolding is_huffman
is_huffman-append mem rest b h = huffman_loop-append huffman_rounds mem rest b h

-- The search stops at position `j` behind those passed, and the tables go there.
record Starts (bytes rest : List ℕ) (n k : ℕ) : Type 0 where
  j : ℕ
  inside : j < length bytes
  found : frame_loop n k (bytes ++ rest) ≡ some (k + j)
  cut : with_tables bytes ≡ take j bytes ++ (dht_data ++ drop j bytes)

frame_loop-Starts :
    (bytes rest : List ℕ) (n k : ℕ)
    → length bytes ≤ n
    → has_start bytes ≡ true
    → Starts bytes rest n k
unfolding frame_loop with_tables has_start
frame_loop-Starts [] rest n k l h = cc
frame_loop-Starts (a ∷ []) rest n k l h = cc
frame_loop-Starts (a ∷ b ∷ bytes) rest zero k l h = absurd (omega arith)
frame_loop-Starts (a ∷ b ∷ bytes) rest (suc n) k l h = elim (Bool-cases (word a b == 0xffc0)) [
  | inl here ↦ record {
    j = 0;
    inside = omega arith;
    found = rw (here, frame_loop) (ap some (omega arith));
    cut = rw here refl;
  }
  | inr on ↦
      let later = frame_loop-Starts (b ∷ bytes) rest n (k + 1) (omega arith) (rw on at h) in
      record {
        j = suc later.j;
        inside = omega (arith, later.inside);
        found = rw (on, frame_loop) (later.found ∙ ap some (omega arith));
        cut = rw on (ap (◌∷◌ a) later.cut);
      }
]

copy_from-front :
    (bytes rest : List ℕ) (j : ℕ)
    → j ≤ length bytes
    → copy_from (bytes ++ rest) 0 j ≡ some (take j bytes)
unfolding copy_from
copy_from-front bytes rest j h =
    let fits : leb (0 + j) (length (bytes ++ rest)) ≡ true =
      ground (arith, length-append bytes rest) in
    rw fits (ap some (take-append_le bytes rest j h))

copy_from-back :
    (bytes rest : List ℕ) (j : ℕ)
    → j ≤ length bytes
    → copy_from (bytes ++ rest) j (length bytes - j) ≡ some (drop j bytes)
unfolding copy_from
copy_from-back bytes rest j h =
    let fits : leb (j + (length bytes - j)) (length (bytes ++ rest)) ≡ true =
      ground (arith, length-append bytes rest) in
    rw fits (
      ap some (
        ap (take (length bytes - j)) (drop-append_le bytes rest j h)
        ∙ take-append (drop j bytes) rest (length bytes - j) (sym (length-drop j bytes))))

insert_tables-cut :
    (bytes rest : List ℕ) (j : ℕ)
    → j < length bytes
    → insert_tables (bytes ++ rest) (length bytes) j
      ≡ some (take j bytes ++ (dht_data ++ drop j bytes))
unfolding insert_tables
insert_tables-cut bytes rest j h =
    let inside : leb (length bytes) j ≡ false = ground arith in
    rw
      (
        inside,
        insert_tables,
        copy_from-front bytes rest j (omega arith),
        copy_from-back bytes rest j (omega arith),
      )
      refl

complete-tables : (bytes : List ℕ) → is_huffman bytes ≡ some true → complete bytes ≡ bytes
unfolding complete
complete-tables bytes h = rw (h, complete) refl

complete-start :
    (bytes : List ℕ) → is_huffman bytes ≡ some false → complete bytes ≡ with_tables bytes
unfolding complete
complete-start bytes h = rw (h, complete) refl

-- memcpy_picture copies the completed frame: the frame as it is, if it has tables; otherwise with
-- the standard tables right before the first marker for the start of a frame. It depends on nothing
-- that stands behind the frame in the memory. The condition: the frame has tables within the bytes
-- that are searched, or a scan ends the search, and a frame starts in it.
pub memcpy_picture-complete :
    (bytes rest : List ℕ)
    → IsComplete bytes
    → memcpy_picture (bytes ++ rest) (length bytes) ≡ some (complete bytes)
unfolding memcpy_picture
memcpy_picture-complete bytes rest (inl tables) =
    rw (memcpy_picture, is_huffman-append bytes rest true tables)
      (copy_from-front bytes rest (length bytes) (omega arith)
        ∙ ap some
            (take_all (length bytes) bytes (omega arith) ∙ sym (complete-tables bytes tables)))
memcpy_picture-complete bytes rest (inr (none_, start)) =
    let s = frame_loop-Starts bytes rest (length bytes) 0 (omega arith) start in
    let found : frame_loop (length bytes) 0 (bytes ++ rest) ≡ some s.j =
      s.found ∙ ap some (omega arith) in
    rw (memcpy_picture, is_huffman-append bytes rest false none_, found)
      (insert_tables-cut bytes rest s.j s.inside
        ∙ ap some (sym (complete-start bytes none_ ∙ s.cut)))
