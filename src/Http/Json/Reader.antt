-- ===== src/Http/Json/Reader.antt =====
-- A reader of JSON, as RFC 8259 describes it: the grammar of the answers. Of numbers it knows the whole
-- ones, and of strings those without escapes.
use raspberry_car.Base.{
  ℕ, Bool, true, false, ◌||◌, List, [], ◌∷◌, ◌++◌, Option, none, some, ltb, ◌==◌, if◌then◌else◌,
}
use raspberry_car.CString.{is_digit}

-- What a document consists of; colons, commas and white space are left out.
pub data Token : Type 0 where
  open_object close_object open_array close_array : Token
  name string number : List ℕ → Token

-- Where the reader stands: before a value, behind `[` or `{`, before a name, behind a name or a value, or
-- within a name, a text or a number that begins with these characters.
pub data Place : Type 0 where
  value first_element first_name next_name behind_name behind_value : Place
  in_name in_text in_number : List ℕ → Place

pub data Bracket : Type 0 where
  object array : Bracket

pub record Reader : Type 0 where
  pub place : Place
  pub inside : List Bracket
  pub seen : List Token  -- the last one first

abbrev pub at : Place → List Bracket → List Token → Reader
at place inside seen = record { place = place; inside = inside; seen = seen }

unfoldable pub is_space : ℕ → Bool
is_space c = c == 32 || c == 9 || c == 10 || c == 13

-- The characters of a string without escapes.
unfoldable pub is_plain : ℕ → Bool
is_plain c =
    if c == b'"' then false else if c == b'\\' then false else if ltb c 32 then false else true

unfoldable pub begin_value : ℕ → List Bracket → List Token → Option Reader
unfolding is_digit
begin_value c inside seen =
    if c == b'{'
    then some (at first_name (object ∷ inside) (open_object ∷ seen))
    else if c == b'['
    then some (at first_element (array ∷ inside) (open_array ∷ seen))
    else if c == b'"'
    then some (at (in_text []) inside seen)
    else if is_digit c
    then some (at (in_number (c ∷ [])) inside seen)
    else none

-- The end of an object or array, or the comma before its next part.
unfoldable pub end_value : ℕ → List Bracket → List Token → Option Reader
end_value c [] seen = none
end_value c (object ∷ inside) seen =
    if c == b','
    then some (at next_name (object ∷ inside) seen)
    else if c == b'}'
    then some (at behind_value inside (close_object ∷ seen))
    else none
end_value c (array ∷ inside) seen =
    if c == b','
    then some (at value (array ∷ inside) seen)
    else if c == b']'
    then some (at behind_value inside (close_array ∷ seen))
    else none

-- A character that is not white space between the parts.
unfoldable pub read_part : ℕ → Place → List Bracket → List Token → Option Reader
unfolding begin_value end_value
read_part c value inside seen = begin_value c inside seen
read_part c first_element inside seen =
    if c == b']' then end_value c inside seen else begin_value c inside seen
read_part c first_name inside seen =
    if c == b'"'
    then some (at (in_name []) inside seen)
    else if c == b'}'
    then end_value c inside seen
    else none
read_part c next_name inside seen = if c == b'"' then some (at (in_name []) inside seen) else none
read_part c behind_name inside seen = if c == b':' then some (at value inside seen) else none
read_part c behind_value inside seen = end_value c inside seen
read_part c _ inside seen = none

unfoldable pub read_between : ℕ → Reader → Option Reader
unfolding read_part is_space
read_between c r = if is_space c then some r else read_part c r.place r.inside r.seen

unfoldable pub read_char : ℕ → Place → List Bracket → List Token → Option Reader
unfolding read_between is_plain is_digit
read_char c (in_name cs) inside seen =
    if c == b'"'
    then some (at behind_name inside (name cs ∷ seen))
    else if is_plain c
    then some (at (in_name (cs ++ c ∷ [])) inside seen)
    else none
read_char c (in_text cs) inside seen =
    if c == b'"'
    then some (at behind_value inside (string cs ∷ seen))
    else if is_plain c
    then some (at (in_text (cs ++ c ∷ [])) inside seen)
    else none
read_char c (in_number cs) inside seen =
    if is_digit c
    then some (at (in_number (cs ++ c ∷ [])) inside seen)
    else read_between c (at behind_value inside (number cs ∷ seen))
read_char c place inside seen = read_between c (at place inside seen)

-- The first list, last element first, before the second one.
unfoldable pub onto : List Token → List Token → List Token
onto [] seen = seen
onto (t ∷ ts) seen = onto ts (t ∷ seen)

-- The document is over when its value is, behind which there is white space at most.
unfoldable pub finished : Place → List Bracket → List Token → Option (List Token)
unfolding onto
finished behind_value [] seen = some (onto seen [])
finished _ _ seen = none

unfoldable pub read : List ℕ → Place → List Bracket → List Token → Option (List Token)
unfolding read_char finished
read [] place inside seen = finished place inside seen
read (c ∷ cs) place inside seen = elim (read_char c place inside seen) [
  | none ↦ none
  | some r ↦ read cs r.place r.inside r.seen
]

-- The parts of a document; `none` if the text is none.
unfoldable pub document : List ℕ → Option (List Token)
unfolding read
document text = read text value [] []
