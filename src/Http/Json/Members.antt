-- ===== src/Http/Json/Members.antt =====
-- The reader at the members of an object whose values are strings.
use raspberry_car.Base.{
  ℕ, ◌≡◌, refl, ◌∙◌, Bool, true, ◌&&◌, List, [], ◌∷◌, ◌++◌, append_assoc, All, arith,
}
use raspberry_car.CString.{codes}
use raspberry_car.Http.Json.Text.{sprintf}
use raspberry_car.Http.Json.Strings.{Plain, read_text, read_name}
use raspberry_car.Http.Json.Reader.{
  Token, Bracket, object, first_name, next_name, behind_value, name, string, onto, read, is_plain,
}

abbrev pub Member : Type 0
Member = List ℕ × List ℕ

-- `"name": "value"` of each member, with `comma` between two.
unfoldable pub members_text : List ℕ → List Member → List ℕ → List ℕ
members_text comma [] rest = rest
members_text comma ((n, v) ∷ []) rest =
    sprintf (codes "\"" ∷ n ∷ codes "\": \"" ∷ v ∷ codes "\"" ∷ []) rest
members_text comma ((n, v) ∷ m ∷ ms) rest =
    sprintf (codes "\"" ∷ n ∷ codes "\": \"" ∷ v ∷ codes "\"" ∷ comma ∷ [])
      (members_text comma (m ∷ ms) rest)

abbrev pub member_tokens : List Member → List Token
member_tokens [] = []
member_tokens ((n, v) ∷ ms) = name n ∷ string v ∷ member_tokens ms

abbrev pub PlainMember : Member → Type 0
PlainMember (n, v) = Plain n × Plain v

unfoldable pub all_plain : List ℕ → Bool
unfolding is_plain
all_plain [] = true
all_plain (c ∷ cs) = is_plain c && all_plain cs

pub all_plain-Plain : (cs : List ℕ) → all_plain cs ≡ true → Plain cs
unfolding all_plain
all_plain-Plain [] h = tt
all_plain-Plain (c ∷ cs) h = ground (arith, all_plain-Plain cs)

pub members-append :
    (comma : List ℕ) (ms : List Member) (rest more : List ℕ)
    → members_text comma ms rest ++ more ≡ members_text comma ms (rest ++ more)
unfolding members_text
members-append comma [] rest more = refl
members-append comma ((n, v) ∷ []) rest more = simp append_assoc
members-append comma ((n, v) ∷ m ∷ ms) rest more =
    simp (append_assoc, members-append comma (m ∷ ms) rest more)

member-read :
    (n v rest : List ℕ) (inside : List Bracket) (seen : List Token)
    → PlainMember (n, v)
    → read
        (sprintf (codes "\"" ∷ n ∷ codes "\": \"" ∷ v ∷ codes "\"" ∷ []) rest)
        next_name
        inside
        seen
      ≡ read rest behind_value inside (string v ∷ name n ∷ seen)
unfolding read
member-read n v rest inside seen h =
    read_name n (sprintf (codes ": \"" ∷ v ∷ codes "\"" ∷ []) rest) [] inside seen h.0
    ∙ read_text v rest [] inside (name n ∷ seen) h.1

-- Where the commas are read as such, the members are.
members-read :
    (comma : List ℕ)
    → ((rest : List ℕ) (inside : List Bracket) (seen : List Token)
        → read (comma ++ rest) behind_value (object ∷ inside) seen
          ≡ read rest next_name (object ∷ inside) seen)
    → (m : Member) (ms : List Member) (rest : List ℕ) (inside : List Bracket) (seen : List Token)
    → All PlainMember (m ∷ ms)
    → read (members_text comma (m ∷ ms) rest) next_name (object ∷ inside) seen
      ≡ read rest behind_value (object ∷ inside) (onto (member_tokens (m ∷ ms)) seen)
unfolding members_text onto
members-read comma between (n, v) [] rest inside seen h =
    member-read n v rest (object ∷ inside) seen h.0
members-read comma between (n, v) (m ∷ ms) rest inside seen h =
    let others = members_text comma (m ∷ ms) rest in
    let seen' : List Token = string v ∷ name n ∷ seen in
    member-read n v (comma ++ others) (object ∷ inside) seen h.0
    ∙ between others inside seen'
    ∙ members-read comma between m ms rest inside seen' h.1

members_first :
    (comma : List ℕ) (m : Member) (ms : List Member) (rest : List ℕ) (inside : List Bracket)
    (seen : List Token)
    → read (members_text comma (m ∷ ms) rest) first_name inside seen
      ≡ read (members_text comma (m ∷ ms) rest) next_name inside seen
unfolding members_text read
members_first comma (n, v) [] rest inside seen = refl
members_first comma (n, v) (m ∷ ms) rest inside seen = refl

-- The same from behind the brace.
pub members-read_brace :
    (comma : List ℕ)
    → ((rest : List ℕ) (inside : List Bracket) (seen : List Token)
        → read (comma ++ rest) behind_value (object ∷ inside) seen
          ≡ read rest next_name (object ∷ inside) seen)
    → (m : Member) (ms : List Member) (rest : List ℕ) (inside : List Bracket) (seen : List Token)
    → All PlainMember (m ∷ ms)
    → read (members_text comma (m ∷ ms) rest) first_name (object ∷ inside) seen
      ≡ read rest behind_value (object ∷ inside) (onto (member_tokens (m ∷ ms)) seen)
members-read_brace comma between m ms rest inside seen h =
    members_first comma m ms rest (object ∷ inside) seen
    ∙ members-read comma between m ms rest inside seen h
