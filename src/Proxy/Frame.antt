-- ===== src/Proxy/Frame.antt =====
-- One frame: the bytes between the header and the boundary become one picture.
use raspberry_car.Base.{
  ℕ, ◌+◌, ◌-◌, ◌≤◌, ◌<◌, ◌≡◌, ◌≢◌, refl, ap, Bool, false, List, [], ◌∷◌, ◌++◌, append_assoc,
  append-nil, Option, none, some, get_or, take, length, length-append, arith,
}
use raspberry_car.Base.Int.{pos, sub_ℕ}
use raspberry_car.Proxy.{
  emit, SearchPattern, search_pattern_matches, boundary, buffer_size, content, Extractor,
  init_extractor_state, Image, content_byte, extract_byte, extract_data,
}
use raspberry_car.Proxy.Search.{
  advance, advance_all, Free, Avoids, compare-advance, advance_all-append, Free-append, Avoids-Free,
  boundary-ne_nul, advance-line_end,
}

-- The pictures of a text that is read without a stop.
unfoldable pub extract_all : Bool → Extractor → List ℕ → Extractor × List Image
extract_all sc s [] = (s, [])
extract_all sc s (b ∷ bs) =
    let (s', image) = extract_byte sc s.part s b in
    let (s'', images) = extract_all sc s' bs in (s'', emit image images)

pub extract_data-extract_all :
    (sc : Bool) (stop : ℕ → Bool) (i : ℕ) (s : Extractor) (bytes : List ℕ)
    → ((j : ℕ) → stop j ≡ false)
    → extract_data sc stop i s bytes ≡ extract_all sc s bytes
unfolding extract_data extract_all
extract_data-extract_all sc stop i s [] never = refl
extract_data-extract_all sc stop i s (b ∷ bs) never =
    let (s', image) = extract_byte sc s.part s b in
    rw (never i) (
      ap (λ (r : Extractor × List Image). (r.0, emit image r.1))
        (extract_data-extract_all sc stop (i + 1) s' bs never))

emit-append : (o : Option Image) (ms ns : List Image) → emit o (ms ++ ns) ≡ emit o ms ++ ns
emit-append none ms ns = refl
emit-append (some m) ms ns = refl

-- Reading goes on where it was, whatever the pieces that the bytes come in.
pub extract_all-append :
    (sc : Bool) (xs ys : List ℕ) (s : Extractor)
    → let (s', ms) = extract_all sc s xs in
      let (s'', ns) = extract_all sc s' ys in extract_all sc s (xs ++ ys) ≡ (s'', ms ++ ns)
unfolding extract_all
extract_all-append sc [] ys s = refl
extract_all-append sc (b ∷ xs) ys s =
    rw (extract_all-append sc xs ys (extract_byte sc s.part s b).0, emit-append)

abbrev pub in_content : List ℕ → ℕ → SearchPattern → ℕ → Extractor
in_content text four p k = record {
  buffer = text;
  part = content;
  last_four_bytes = four;
  contentlength = p;
  boundary_search = record { string = boundary; current = k };
}

module _ (sc : Bool) (four : ℕ) (p : SearchPattern) where
  byte-quiet :
      (text : List ℕ) (k c : ℕ)
      → length text < buffer_size - 1
      → get_or boundary (advance boundary k c) 0 ≢ 0
      → content_byte sc (in_content text four p k) c
        ≡ (in_content (text ++ c ∷ []) four p (advance boundary k c), none)
  unfolding content_byte search_pattern_matches
  byte-quiet text k c room quiet = rw (compare-advance boundary k c) (ground arith)

  byte-fires :
      (text : List ℕ) (k c : ℕ)
      → length text < buffer_size - 1
      → get_or boundary (advance boundary k c) 0 ≡ 0
      → content_byte sc (in_content text four p k) c ≡ (
        init_extractor_state,
        some (record {
          bytes = text ++ c ∷ [];
          size = sub_ℕ (length (text ++ c ∷ [])) (length boundary + 2);
        }),
      )
  unfolding content_byte search_pattern_matches
  byte-fires text k c room fires = rw (compare-advance boundary k c) (ground arith)

  -- A text in which the search does not fire is collected.
  pub content-quiet :
      (bytes text : List ℕ) (k : ℕ)
      → Free boundary k bytes
      → length text + length bytes ≤ buffer_size - 1
      → extract_all sc (in_content text four p k) bytes
        ≡ (in_content (text ++ bytes) four p (advance_all boundary k bytes), [])
  unfolding extract_all extract_byte advance_all
  content-quiet [] text k free room = rw append-nil
  content-quiet (c ∷ bytes) text k free room = rw (byte-quiet text k c (omega arith) free.0) (
      rw
        (content-quiet bytes (text ++ c ∷ []) (advance boundary k c) free.1
          (omega (arith, length-append text (c ∷ []))))
        (rw append_assoc))

-- The line end before the boundary, and the boundary without its last character.
abbrev pub closing : List ℕ
closing = 13 ∷ 10 ∷ take 19 boundary

boundary-Free : Free boundary 0 (take 19 boundary)
unfolding advance
boundary-Free = omega arith

advance_all-boundary : advance_all boundary 0 (take 19 boundary) ≡ 19
unfolding advance_all advance
advance_all-boundary = refl

advance-cr : (k : ℕ) → advance boundary k 13 ≡ 0
advance-cr k = advance-line_end k 13 (omega arith) (omega arith)

advance-lf : (k : ℕ) → advance boundary k 10 ≡ 0
advance-lf k = advance-line_end k 10 (omega arith) (omega arith)

closing-Free : (k : ℕ) → Free boundary k closing
closing-Free k = rw (advance-cr k, advance-lf 0) (omega arith, (omega arith, boundary-Free))

advance_all-closing : (k : ℕ) → advance_all boundary k closing ≡ 19
unfolding advance_all
advance_all-closing k = rw (advance-cr k, advance-lf 0) advance_all-boundary

last-fires : get_or boundary (advance boundary 19 b's') 0 ≡ 0
unfolding advance
last-fires = refl

frame-Free : (frame : List ℕ) → Free boundary 0 frame → Free boundary 0 (frame ++ closing)
frame-Free frame free =
    Free-append boundary 0 frame closing free (closing-Free (advance_all boundary 0 frame))

-- The picture that `extract_data` hands on for a frame: the frame stands at the front of the
-- buffer, and its length is the one passed on.
abbrev pub image_of : List ℕ → Image
image_of frame = record { bytes = (frame ++ closing) ++ b's' ∷ []; size = pos (length frame) }

image_size :
    (frame : List ℕ)
    → sub_ℕ (length ((frame ++ closing) ++ b's' ∷ [])) (length boundary + 2) ≡ pos (length frame)
image_size frame =
    ground (arith, length-append (frame ++ closing) (b's' ∷ []), length-append frame closing)

pub extract_all-Free :
    (sc : Bool) (four : ℕ) (p : SearchPattern) (frame : List ℕ)
    → Free boundary 0 frame
    → length frame + 21 < buffer_size - 1
    → extract_all sc (in_content [] four p 0) ((frame ++ closing) ++ b's' ∷ [])
      ≡ (init_extractor_state, image_of frame ∷ [])
extract_all-Free sc four p frame free room =
    let n = length-append frame closing in
    rw (extract_all-append sc (frame ++ closing) (b's' ∷ []) (in_content [] four p 0)) (
      rw
        (content-quiet sc four p (frame ++ closing) [] 0 (frame-Free frame free) (omega (arith, n)))
        (rw (advance_all-append boundary 0 frame closing, advance_all-closing)
          (unfold extract_all extract_byte in
            rw (
              byte-fires sc four p (frame ++ closing) 19 b's' (omega (arith, n)) last-fires,
              image_size frame,
            ))))

-- In the content of a part, the bytes of a frame, the line end and the boundary make one picture,
-- with the frame's length, and start the parser again; for a frame that the boundary does not stand
-- in and that leaves room for it in the buffer.
pub extract_all-frame :
    (sc : Bool) (four : ℕ) (p : SearchPattern) (frame : List ℕ)
    → Avoids boundary frame
    → length frame + 21 < buffer_size - 1
    → extract_all sc (in_content [] four p 0) ((frame ++ closing) ++ b's' ∷ [])
      ≡ (init_extractor_state, image_of frame ∷ [])
extract_all-frame sc four p frame av room =
    extract_all-Free sc four p frame (Avoids-Free boundary boundary-ne_nul (omega arith) frame av)
      room
