-- ===== src/Http/Json/Whole.antt =====
-- The description of an input plugin, whole.
use raspberry_car.Http.Json.Possible.{GoodControl, menu_text, listed_of, with_menus_good}
use raspberry_car.Http.Json.Shown.{GoodFormat, resolutions_of, shown_of, with_resolutions_good}
use raspberry_car.Base.{
  ℕ, ◌≡◌, refl, ap, ◌∙◌, List, [], ◌∷◌, ◌++◌, some, none, All, ltb, length, if◌then◌else◌,
}
use raspberry_car.CString.{codes}
use raspberry_car.Http.Json.Text.{sprintf, with_commas, json_header, json_buffer_size, described}
use raspberry_car.Http.Json.Controls.{Control, control_text, controls_text}
use raspberry_car.Http.Json.Input.{InputFormat, format_text, send_input_json}
use raspberry_car.Http.Json.Strings.{Plain}
use raspberry_car.Http.Json.Parts.{all_tokens, onto-onto, read_array}
use raspberry_car.Http.Json.Members.{all_plain, all_plain-Plain}
use raspberry_car.Http.Json.Described.{control_tokens, control-read}
use raspberry_car.Http.Json.Formats.{format_tokens, format-read}
use raspberry_car.Http.Json.Reader.{
  Token, Bracket, object, array, open_object, close_object, open_array, close_array, name, value,
  first_element, behind_value, onto, read, document,
}

-- A good control with its menu.
abbrev Listed : Control × List ℕ → Type 0
Listed (c, menu) = GoodControl c × (menu ≡ menu_text c)

abbrev Shown : InputFormat × List ℕ → Type 0
Shown (f, shown) = GoodFormat f × (shown ≡ resolutions_of f)

listed_of-Listed : (cs : List Control) → All GoodControl cs → All Listed (listed_of cs)
listed_of-Listed [] h = tt
listed_of-Listed (c ∷ cs) h = ((h.0, refl), listed_of-Listed cs h.1)

shown_of-Shown : (fs : List InputFormat) → All GoodFormat fs → All Shown (shown_of fs)
shown_of-Shown [] h = tt
shown_of-Shown (f ∷ fs) h = ((h.0, refl), shown_of-Shown fs h.1)

Listed-read :
    (dest : List ℕ) (x : Control × List ℕ) (rest : List ℕ) (inside : List Bracket)
    (seen : List Token)
    → Plain dest
    → Listed x
    → read (control_text dest x rest) value inside seen
      ≡ read rest behind_value inside (onto (control_tokens dest x) seen)
Listed-read dest (c, menu) rest inside seen p g =
    rw g.1 (control-read dest c rest inside seen p g.0)

Shown-read :
    (x : InputFormat × List ℕ) (rest : List ℕ) (inside : List Bracket) (seen : List Token)
    → Shown x
    → read (format_text x (b'}' ∷ rest)) value inside seen
      ≡ read rest behind_value inside (onto (format_tokens x.0) seen)
Shown-read (f, shown) rest inside seen g = rw g.1 (format-read f rest inside seen g.0)

pub controls-read :
    (dest : List ℕ) (cs : List Control) (rest : List ℕ) (seen : List Token)
    → Plain dest
    → All GoodControl cs
    → read
        (with_commas (control_text dest) (codes ",\n") [] (listed_of cs) (codes "\n]" ++ rest))
        first_element
        (array ∷ object ∷ [])
        seen
      ≡ read rest behind_value
          (object ∷ [])
          (close_array ∷ onto (all_tokens (control_tokens dest) (listed_of cs)) seen)
unfolding read control_text
controls-read dest cs rest seen p h =
    read_array {Good = Listed} (control_text dest) (control_tokens dest) (codes ",\n") []
      (codes "\n]") (object ∷ []) (λ x rest seen. refl)
      (λ x rest seen g. Listed-read dest x (codes ",\n" ++ rest) (array ∷ object ∷ []) seen p g)
      (λ x rest seen g. Listed-read dest x rest (array ∷ object ∷ []) seen p g)
      (λ rest seen. (refl, refl)) (listed_of cs) rest seen (listed_of-Listed cs h)

formats-read :
    (fs : List InputFormat) (rest : List ℕ) (seen : List Token)
    → All GoodFormat fs
    → read
        (with_commas format_text (codes "},\n") (codes "}\n") (shown_of fs) (codes "\n]" ++ rest))
        first_element
        (array ∷ object ∷ [])
        seen
      ≡ read rest behind_value (object ∷ []) (
          close_array
          ∷ onto (all_tokens (λ (x : InputFormat × List ℕ). format_tokens x.0) (shown_of fs)) seen)
unfolding read format_text
formats-read fs rest seen h =
    read_array {Good = Shown} format_text (λ (x : InputFormat × List ℕ). format_tokens x.0)
      (codes "},\n") (codes "}\n") (codes "\n]") (object ∷ []) (λ x rest seen. refl)
      (λ x rest seen g. Shown-read x (codes ",\n" ++ rest) (array ∷ object ∷ []) seen g)
      (λ x rest seen g. Shown-read x (codes "\n" ++ rest) (array ∷ object ∷ []) seen g)
      (λ rest seen. (refl, refl)) (shown_of fs) rest seen (shown_of-Shown fs h)

abbrev pub controls_tokens : List ℕ → List Control → List Token
controls_tokens dest cs = all_tokens (control_tokens dest) (listed_of cs)

abbrev pub input_tokens : List Control → List InputFormat → List Token
input_tokens controls formats =
    open_object ∷ name (codes "controls") ∷ open_array ∷ controls_tokens (codes "0") controls
    ++ (close_array
          ∷ name (codes "formats")
          ∷ open_array
          ∷ all_tokens (λ (x : InputFormat × List ℕ). format_tokens x.0) (shown_of formats)
        ++ close_array ∷ close_object ∷ [])

controls_formats-document :
    (cs : List Control) (fs : List InputFormat)
    → All GoodControl cs
    → All GoodFormat fs
    → document (
        controls_text (codes "0") (listed_of cs) (
          sprintf (codes "\n],\n" ∷ codes "\"formats\": [\n" ∷ []) (
            with_commas format_text
              (codes "},\n")
              (codes "}\n")
              (shown_of fs)
              (sprintf (codes "\n]\n}\n" ∷ []) []))))
      ≡ some (input_tokens cs fs)
unfolding document read controls_text onto
controls_formats-document cs fs h k =
    let s1 : List Token = open_array ∷ name (codes "controls") ∷ open_object ∷ [] in
    let t1 = controls_tokens (codes "0") cs in
    let s2 : List Token = open_array ∷ name (codes "formats") ∷ close_array ∷ onto t1 s1 in
    let t2 = all_tokens (λ (x : InputFormat × List ℕ). format_tokens x.0) (shown_of fs) in
    let end : List Token = close_array ∷ close_object ∷ [] in
    let zero_plain : Plain (codes "0") = unfold all_plain in all_plain-Plain (codes "0") refl in
    controls-read (codes "0") cs
      (sprintf (codes ",\n" ∷ codes "\"formats\": [\n" ∷ [])
        (with_commas format_text (codes "},\n") (codes "}\n") (shown_of fs) (codes "\n]\n}\n")))
      s1 zero_plain h
    ∙ formats-read fs (codes "\n}\n") s2 k
    ∙ ap some (onto-onto t2 s2 end)
    ∙ ap some (onto-onto t1 s1 (close_array ∷ name (codes "formats") ∷ open_array ∷ t2 ++ end))

-- Controls with plain names and, where they are menus, items for all their numbers, which are below
-- 100, and formats with plain names and at least one resolution (at most 100,000, of sizes of at most
-- five digits) have a description that leaves the memory of no menu and of no list of resolutions;
-- it is sent, behind the header, where both are shorter than the buffer of 16384 bytes that they are
-- put together in, and is otherwise written past the end of that buffer. The description is a JSON
-- document: an object with two arrays, an object for each control (with its menu, where it has one, as an
-- object of its items) and one for each format with its resolutions, in their order. Of the items of a
-- menu only quotes and backslashes are to be excluded, since check_JSON_string takes care of the rest.
pub send_input_json-document :
    (controls : List Control) (formats : List InputFormat)
    → All GoodControl controls
    → All GoodFormat formats
    → (text : List ℕ) × (send_input_json controls formats ≡ (
        if ltb (length (json_header ++ text)) json_buffer_size
        then some (json_header ++ text)
        else none))
      × (document text ≡ some (input_tokens controls formats))
unfolding send_input_json described
send_input_json-document controls formats h k = (
  _,
  rw (send_input_json, with_menus_good controls h, with_resolutions_good formats k) refl,
  controls_formats-document controls formats h k,
)
