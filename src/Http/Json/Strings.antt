-- ===== src/Http/Json/Strings.antt =====
-- The reader at the strings and numbers of a document.
use raspberry_car.Base.{
  ℕ, ◌≡◌, ◌∙◌, true, List, [], ◌∷◌, ◌++◌, append-nil, append_assoc, All, arith,
}
use raspberry_car.Http.Json.Reader.{
  Token, Bracket, in_name, in_text, behind_name, behind_value, name, string, is_plain, read,
}

-- A string that stands in JSON as it is.
abbrev pub Plain : List ℕ → Type 0
Plain = All (λ (c : ℕ). is_plain c ≡ true)

plain_char :
    (c : ℕ) (cs : List ℕ) (inside : List Bracket) (seen : List Token) (rest : List ℕ)
    → is_plain c ≡ true
    → (read (c ∷ rest) (in_text cs) inside seen ≡ read rest (in_text (cs ++ c ∷ [])) inside seen)
      × (read (c ∷ rest) (in_name cs) inside seen ≡ read rest (in_name (cs ++ c ∷ [])) inside seen)
unfolding read is_plain
plain_char c cs inside seen rest h = ground arith

pub read_text :
    (s rest cs : List ℕ) (inside : List Bracket) (seen : List Token)
    → Plain s
    → read (s ++ b'"' ∷ rest) (in_text cs) inside seen
      ≡ read rest behind_value inside (string (cs ++ s) ∷ seen)
unfolding read
read_text [] rest cs inside seen h = rw append-nil
read_text (c ∷ s) rest cs inside seen h =
    let e : (cs ++ c ∷ []) ++ s ≡ cs ++ c ∷ s = append_assoc cs (c ∷ []) s in
    (plain_char c cs inside seen (s ++ b'"' ∷ rest) h.0).0
    ∙ read_text s rest (cs ++ c ∷ []) inside seen h.1
    ∙ rw e

pub read_name :
    (s rest cs : List ℕ) (inside : List Bracket) (seen : List Token)
    → Plain s
    → read (s ++ b'"' ∷ rest) (in_name cs) inside seen
      ≡ read rest behind_name inside (name (cs ++ s) ∷ seen)
unfolding read
read_name [] rest cs inside seen h = rw append-nil
read_name (c ∷ s) rest cs inside seen h =
    let e : (cs ++ c ∷ []) ++ s ≡ cs ++ c ∷ s = append_assoc cs (c ∷ []) s in
    (plain_char c cs inside seen (s ++ b'"' ∷ rest) h.0).1
    ∙ read_name s rest (cs ++ c ∷ []) inside seen h.1
    ∙ rw e
