-- ===== src/Http/Json/Formats.antt =====
-- The formats in the description of an input plugin, and the whole of it.
use raspberry_car.Base.{
  ℕ, ◌+◌, ◌≡◌, refl, subst, sym, ap, ◌∙◌, Bool, true, false, inl, inr, Bool-cases, List, [], ◌∷◌,
  ◌++◌, All, if◌then◌else◌,
}
use raspberry_car.CString.{codes}
use raspberry_car.Decimal.{decimal}
use raspberry_car.Http.Json.Text.{sprintf, signed}
use raspberry_car.Http.Json.Input.{InputFormat, Resolution, flag, is_current, format_text}
use raspberry_car.Http.Json.Strings.{Plain, read_text}
use raspberry_car.Http.Json.Parts.{decimal-Plain, signed-Plain, onto-append}
use raspberry_car.Http.Json.Members.{
  Member, members_text, member_tokens, PlainMember, all_plain, all_plain-Plain, members-append,
  members-read_brace,
}
use raspberry_car.Http.Json.Resolutions.{resolution_members}
use raspberry_car.Http.Json.Reader.{
  Token, Bracket, object, open_object, close_object, name, string, value, behind_value, onto, read,
  is_plain,
}
use raspberry_car.Http.Json.Shown.{resolutions_of, GoodFormat}

abbrev pub format_members : InputFormat → List Member
format_members f =
    (codes "id", decimal f.index)
    ∷ (codes "name", f.description)
    ∷ (codes "compressed", flag f.compressed)
    ∷ (codes "emulated", flag f.emulated)
    ∷ (codes "current", flag (is_current f))
    ∷ []

abbrev pub current_tokens : InputFormat → List Token
current_tokens f =
    if is_current f
    then name (codes "currentResolution") ∷ string (signed f.current_resolution) ∷ []
    else []

abbrev pub format_tokens : InputFormat → List Token
format_tokens f =
    open_object ∷ member_tokens (format_members f)
    ++ (name (codes "resolutions")
          ∷ open_object
          ∷ member_tokens (resolution_members 0 f.resolutions)
        ++ (close_object ∷ current_tokens f ++ close_object ∷ []))

flag-Plain : (b : Bool) → Plain (flag b)
unfolding flag all_plain
flag-Plain true = all_plain-Plain (codes "true") refl
flag-Plain false = all_plain-Plain (codes "false") refl

format_members-Plain : (f : InputFormat) → Plain f.description → All PlainMember (format_members f)
unfolding all_plain
format_members-Plain f h = (
  (all_plain-Plain (codes "id") refl, decimal-Plain f.index),
  (
    (all_plain-Plain (codes "name") refl, h),
    (
      (all_plain-Plain (codes "compressed") refl, flag-Plain f.compressed),
      (
        (all_plain-Plain (codes "emulated") refl, flag-Plain f.emulated),
        ((all_plain-Plain (codes "current") refl, flag-Plain (is_current f)), tt),
      ),
    ),
  ),
)

resolution_members-Plain :
    (j : ℕ) (rs : List Resolution) → All PlainMember (resolution_members j rs)
resolution_members-Plain j [] = tt
resolution_members-Plain j (r ∷ rs) = (
  (
    decimal-Plain j,
    Plain-append (decimal r.width) (codes "x" ++ decimal r.height) (decimal-Plain r.width)
        (x-Plain, decimal-Plain r.height),
  ),
  resolution_members-Plain (j + 1) rs,
)
  where
    x-Plain : is_plain b'x' ≡ true
    x-Plain = unfold is_plain in refl

    Plain-append : (s t : List ℕ) → Plain s → Plain t → Plain (s ++ t)
    Plain-append [] t h k = k
    Plain-append (c ∷ s) t h k = (h.0, Plain-append s t h.1 k)

-- What stands behind the resolutions, and behind the first texts.
current_end : InputFormat → List ℕ → List ℕ
current_end f rest =
    if is_current f
    then sprintf
        (codes ",\n\"currentResolution\": \"" ∷ signed f.current_resolution ∷ codes "\"\n" ∷ [])
        rest
    else rest

format_end : InputFormat → List ℕ → List ℕ → List ℕ
format_end f shown rest =
    sprintf (codes ",\n\"resolutions\": {" ∷ shown ∷ codes "}\n" ∷ []) (current_end f rest)

format_text_members :
    (f : InputFormat) (shown rest : List ℕ)
    → format_text (f, shown) rest
      ≡ sprintf
          (codes "{\n" ∷ [])
          (members_text (codes ",\n") (format_members f) (format_end f shown rest))
unfolding format_text format_end current_end members_text
format_text_members f shown rest = refl

current_end-read :
    (f : InputFormat) (rest : List ℕ) (inside : List Bracket) (seen : List Token)
    → read (current_end f (b'}' ∷ rest)) behind_value (object ∷ inside) seen
      ≡ read rest behind_value inside (onto (current_tokens f ++ close_object ∷ []) seen)
unfolding read current_end onto
current_end-read f rest inside seen = elim (Bool-cases (is_current f)) [
  | inl h ↦ rw h (
      read_text (signed f.current_resolution) (codes "\n}" ++ rest) [] (object ∷ inside)
        (name (codes "currentResolution") ∷ seen) (signed-Plain f.current_resolution))
  | inr h ↦ rw h
]

shown-read :
    (r : Resolution) (rs : List Resolution) (end : List ℕ) (inside : List Bracket)
    (seen : List Token)
    → read
        (sprintf
          (codes ",\n\"resolutions\": {"
            ∷ members_text (codes ", ") (resolution_members 0 (r ∷ rs)) []
            ∷ codes "}\n"
            ∷ [])
          end)
        behind_value
        (object ∷ inside)
        seen
      ≡ read end behind_value (object ∷ inside) (
          close_object
          ∷ onto
              (member_tokens (resolution_members 0 (r ∷ rs)))
              (open_object ∷ name (codes "resolutions") ∷ seen))
unfolding read
shown-read r rs end inside seen =
    let ms = resolution_members 1 rs in
    let m : Member = (decimal 0, decimal r.width ++ (codes "x" ++ decimal r.height)) in
    let seen' : List Token = open_object ∷ name (codes "resolutions") ∷ seen in
    rw (members-append (codes ", ") (m ∷ ms) [] (codes "}\n" ++ end)) (
      members-read_brace (codes ", ") (λ r i s. refl) m ms (codes "}\n" ++ end) (object ∷ inside)
        seen' (resolution_members-Plain 0 (r ∷ rs)))

format_end-read :
    (f : InputFormat) (rest : List ℕ) (inside : List Bracket) (seen : List Token)
    → GoodFormat f
    → read (format_end f (resolutions_of f) (b'}' ∷ rest)) behind_value (object ∷ inside) seen
      ≡ read rest behind_value inside (
          onto (current_tokens f ++ close_object ∷ []) (
            close_object
            ∷ onto
                (member_tokens (resolution_members 0 f.resolutions))
                (open_object ∷ name (codes "resolutions") ∷ seen)))
unfolding format_end
format_end-read f rest inside seen g =
    subst
      (λ (rs : List Resolution).
        read
          (sprintf
            (codes ",\n\"resolutions\": {"
              ∷ members_text (codes ", ") (resolution_members 0 rs) []
              ∷ codes "}\n"
              ∷ [])
            (current_end f (b'}' ∷ rest)))
          behind_value (object ∷ inside) seen
        ≡ read rest behind_value inside (
            onto (current_tokens f ++ close_object ∷ []) (
              close_object
              ∷ onto (member_tokens (resolution_members 0 rs))
                  (open_object ∷ name (codes "resolutions") ∷ seen))))
      (sym g.some_resolution)
      (shown-read g.first g.others (current_end f (b'}' ∷ rest)) inside seen
        ∙ current_end-read f rest inside (
            close_object
            ∷ onto (member_tokens (resolution_members 0 (g.first ∷ g.others)))
                (open_object ∷ name (codes "resolutions") ∷ seen)))

pub format-read :
    (f : InputFormat) (rest : List ℕ) (inside : List Bracket) (seen : List Token)
    → GoodFormat f
    → read (format_text (f, resolutions_of f) (b'}' ∷ rest)) value inside seen
      ≡ read rest behind_value inside (onto (format_tokens f) seen)
unfolding read onto
format-read f rest inside seen g =
    let end = format_end f (resolutions_of f) (b'}' ∷ rest) in
    let ms : List Member =
      (codes "name", f.description)
      ∷ (codes "compressed", flag f.compressed)
      ∷ (codes "emulated", flag f.emulated)
      ∷ (codes "current", flag (is_current f))
      ∷ [] in
    let seen' : List Token = onto (member_tokens (format_members f)) (open_object ∷ seen) in
    let sizes : List Token = member_tokens (resolution_members 0 f.resolutions) in
    ap (λ (t : List ℕ). read t value inside seen)
      (format_text_members f (resolutions_of f) (b'}' ∷ rest))
    ∙ members-read_brace (codes ",\n") (λ r i s. refl) (codes "id", decimal f.index) ms end inside
        (open_object ∷ seen) (format_members-Plain f g.plain)
    ∙ format_end-read f rest inside seen' g
    ∙ ap (λ (s : List Token). read rest behind_value inside s)
        (sym (
          onto-append sizes (close_object ∷ current_tokens f ++ close_object ∷ [])
            (open_object ∷ name (codes "resolutions") ∷ seen')))
