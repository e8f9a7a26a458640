-- ===== src/Proxy.antt =====
-- plugins/input_http/misc.c and mjpg-proxy.c: the client that takes the frames out of the stream of
-- another server, byte by byte.
pub mod Search
pub mod Header
pub mod Frame
pub mod Relay
pub mod Session
pub mod Tests
use Prim.Native.Nat.{bit_and}
use raspberry_car.Base.{
  ℕ, zero, suc, ◌+◌, ◌-◌, ◌*◌, ◌/◌, ◌%◌, ◌^◌, Bool, true, false, not, ◌&&◌, List, [], ◌∷◌, ◌++◌,
  Option, none, some, leb, ltb, ◌==◌, if◌then◌else◌, get_or, length,
}
use raspberry_car.Base.Int.{ℤ, sub_ℕ}
use raspberry_car.CString.{codes}

-- An `int` is its bit pattern, below 2 ^ 32. `push_byte` widens a `char` to an `int`: where `char`
-- is signed, a byte from 128 on fills the upper bits with ones.
unfoldable pub push_byte : Bool → ℕ → ℕ → ℕ
push_byte signed_char bytes byte =
    if signed_char && leb 128 byte then 2 ^ 32 - 256 + byte else bytes * 256 % 2 ^ 32 + byte

abbrev pub cr_lf : ℕ
cr_lf = 13 * 256 + 10

unfoldable pub is_crlf : ℕ → Bool
is_crlf bytes = bit_and cr_lf bytes == cr_lf

unfoldable pub is_crlfcrlf : ℕ → Bool
unfolding is_crlf
is_crlfcrlf bytes = is_crlf bytes && is_crlf (bytes / 2 ^ 16)

-- `struct search_pattern`; `current` is the offset of `current_matched_char` in the string.
pub record SearchPattern : Type 0 where
  pub string : List ℕ
  pub current : ℕ

unfoldable pub search_pattern_reset : SearchPattern → SearchPattern
search_pattern_reset p = record p { current = 0 }

-- The end of the string is its NUL.
unfoldable pub search_pattern_compare : SearchPattern → ℕ → SearchPattern
unfolding search_pattern_reset
search_pattern_compare p c =
    if get_or p.string p.current 0 == c
    then record p { current = p.current + 1 }
    else search_pattern_reset p

unfoldable pub search_pattern_matches : SearchPattern → Bool
search_pattern_matches p = get_or p.string p.current 0 == 0

abbrev pub content_length : List ℕ
content_length = codes "Content-Length:"

abbrev pub boundary : List ℕ
boundary = codes "--boundarydonotcross"

abbrev pub buffer_size : ℕ
buffer_size = 1024 * 256

pub data Part : Type 0 where
  header content : Part

-- `struct extractor_state`, as far as the parser uses it: `buffer` holds the first `length` bytes
-- of the array.
pub record Extractor : Type 0 where
  pub buffer : List ℕ
  pub part : Part
  pub last_four_bytes : ℕ
  pub contentlength : SearchPattern
  pub boundary_search : SearchPattern

abbrev pub init_extractor_state : Extractor
init_extractor_state = record {
  buffer = [];
  part = header;
  last_four_bytes = 0;
  contentlength = record { string = content_length; current = 0 };
  boundary_search = record { string = boundary; current = 0 };
}

-- The arguments of `on_image_received`: the buffer, and the length of the picture in it.
pub record Image : Type 0 where
  pub bytes : List ℕ
  pub size : ℤ

-- The call of `on_image_received`, ahead of the later ones.
abbrev pub emit : Option Image → List Image → List Image
emit none ms = ms
emit (some m) ms = m ∷ ms

module _ (signed_char : Bool) where
  -- `case HEADER` of `extract_data`.
  unfoldable pub header_byte : Extractor → ℕ → Extractor
  unfolding push_byte is_crlfcrlf is_crlf search_pattern_reset search_pattern_compare
      search_pattern_matches
  header_byte s byte =
      let four = push_byte signed_char s.last_four_bytes byte in
      let compared = search_pattern_compare s.contentlength byte in
      if is_crlfcrlf four
      then record s { last_four_bytes = four; part = content }
      else if is_crlf four
      then record s { last_four_bytes = four; contentlength = search_pattern_reset s.contentlength }
      else if search_pattern_matches compared
      then record s { last_four_bytes = four; contentlength = search_pattern_reset compared }
      else record s { last_four_bytes = four; contentlength = compared }

  -- `case CONTENT`.
  unfoldable pub content_byte : Extractor → ℕ → Extractor × Option Image
  unfolding search_pattern_compare search_pattern_matches
  content_byte s byte =
      let buffer = s.buffer ++ byte ∷ [] in
      let compared = search_pattern_compare s.boundary_search byte in
      let image : Image = record {
        bytes = buffer;
        size = sub_ℕ (length buffer) (length boundary + 2);
      } in
      if leb (buffer_size - 1) (length s.buffer)
      then (s, none)
      else if search_pattern_matches compared
      then (init_extractor_state, some image)
      else (record s { buffer = buffer; boundary_search = compared }, none)

  unfoldable pub extract_byte : Part → Extractor → ℕ → Extractor × Option Image
  unfolding header_byte content_byte
  extract_byte header s byte = (header_byte s byte, none)
  extract_byte content s byte = content_byte s byte

  -- The loop of `extract_data`. `stop i` is what `*should_stop` says before byte `i`; the pictures
  -- are the calls of `on_image_received`, in order.
  unfoldable pub extract_data : (ℕ → Bool) → ℕ → Extractor → List ℕ → Extractor × List Image
  unfolding extract_byte
  extract_data stop i s [] = (s, [])
  extract_data stop i s (byte ∷ rest) =
      let (s', image) = extract_byte s.part s byte in
      let (s'', images) = extract_data stop (i + 1) s' rest in
      if stop i then (s, []) else (s'', emit image images)
