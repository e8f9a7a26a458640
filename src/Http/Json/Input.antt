-- ===== src/Http/Json/Input.antt =====
-- send_input_JSON.
use raspberry_car.Base.{
  ℕ, zero, suc, ◌+◌, ◌*◌, Bool, true, false, ◌&&◌, List, [], ◌∷◌, ◌++◌, Option, none, some, leb,
  if◌then◌else◌, length, get_elem?,
}
use raspberry_car.Base.Int.{ℤ, pos, negsuc}
use raspberry_car.CString.{codes}
use raspberry_car.Decimal.{decimal}
use raspberry_car.Http.Json.Text.{sprintf, if_last, described, signed, with_commas}
use raspberry_car.Http.Json.Controls.{Control, check_json_string, with_menus, controls_text}
use raspberry_car.Http.Json.Output.{menu_item}

-- The items from `j` on, behind what `menuString` holds. The memory
-- allocated is that of the string, the name and eleven characters.
unfoldable pub input_items : List (List ℕ) → List ℕ → ℕ → ℕ → Option (List ℕ)
unfolding menu_item check_json_string
input_items items menu j zero = some menu
input_items items menu j (suc others) = elim (get_elem? items j) [
  | none ↦ none
  | some item_name ↦
      let longer = menu ++ menu_item j (check_json_string item_name) others in
      let rest = input_items items longer (j + 1) others in
      if leb (length longer + 1) (length menu + length item_name + 11) then rest else none
]

unfoldable pub input_menu : List (List ℕ) → ℕ → ℕ → Option (List ℕ)
unfolding input_items
input_menu items j count = input_items items [] j count

-- `input_resolution`
pub record Resolution : Type 0 where
  pub width : ℕ
  pub height : ℕ

-- `input_format`; `current_resolution` is -1 where the format is not the current one.
pub record InputFormat : Type 0 where
  pub index : ℕ
  pub description : List ℕ
  pub compressed : Bool
  pub emulated : Bool
  pub current_resolution : ℤ
  pub resolutions : List Resolution

unfoldable pub resolution_text : ℕ → Resolution → ℕ → List ℕ
resolution_text j r others =
    sprintf
      (codes "\""
        ∷ decimal j
        ∷ codes "\": \""
        ∷ decimal r.width
        ∷ codes "x"
        ∷ decimal r.height
        ∷ [])
      (if_last others (codes "\"") (codes "\", "))

-- The digits of a number and its NUL fit `buffer_num[6]`.
unfoldable pub fits_buffer_num : ℕ → Bool
fits_buffer_num n = leb (length (decimal n) + 1) 6

-- `resolutionsStringLength` for a resolution, with its punctuation and five more.
unfoldable pub resolution_length : ℕ → Resolution → ℕ → ℕ
resolution_length j r others =
    length (decimal j)
    + length (decimal r.width)
    + length (decimal r.height)
    + (if_last others 7 9)
    + 5

-- The resolutions from `j` on, behind what `resolutionsString` holds, with `size` for
-- `resolutionsStringLength`. The memory allocated is eight times that.
unfoldable pub resolutions_from : ℕ → List ℕ → ℕ → List Resolution → Option (List ℕ)
unfolding resolution_text fits_buffer_num resolution_length
resolutions_from size text j [] = some text
resolutions_from size text j (r ∷ rs) =
    let longer = text ++ resolution_text j r (length rs) in
    let size' = size + resolution_length j r (length rs) in
    let rest = resolutions_from size' longer (j + 1) rs in
    if fits_buffer_num j
      && fits_buffer_num r.width
      && fits_buffer_num r.height
      && leb (length longer + 1) (size' * 8)
    then rest
    else none

-- `%s` of a `resolutionsString` that stays NULL is undefined.
unfoldable pub resolutions_string : List Resolution → Option (List ℕ)
unfolding resolutions_from
resolutions_string [] = none
resolutions_string (r ∷ rs) = resolutions_from 0 [] 0 (r ∷ rs)

unfoldable pub flag : Bool → List ℕ
flag b = if b then codes "true" else codes "false"

unfoldable pub is_current : InputFormat → Bool
is_current f = elim f.current_resolution [
  | pos n ↦ true
  | negsuc zero ↦ false
  | negsuc (suc n) ↦ true
]

-- A format with its `resolutionsString`, up to the brace that ends it.
unfoldable pub format_text : InputFormat × List ℕ → List ℕ → List ℕ
unfolding flag is_current
format_text (f, resolutions) rest =
    sprintf
      (codes "{\n\"id\": \""
        ∷ decimal f.index
        ∷ codes "\",\n\"name\": \""
        ∷ f.description
        ∷ codes "\",\n\"compressed\": \""
        ∷ flag f.compressed
        ∷ codes "\",\n\"emulated\": \""
        ∷ flag f.emulated
        ∷ codes "\",\n\"current\": \""
        ∷ flag (is_current f)
        ∷ codes "\",\n\"resolutions\": {"
        ∷ resolutions
        ∷ codes "}\n"
        ∷ [])
      (if is_current f
        then sprintf
            (codes ",\n\"currentResolution\": \"" ∷ signed f.current_resolution ∷ codes "\"\n" ∷ [])
            rest
        else rest)

unfoldable pub with_resolutions : List InputFormat → Option (List (InputFormat × List ℕ))
unfolding resolutions_string
with_resolutions [] = some []
with_resolutions (f ∷ fs) = elim (resolutions_string f.resolutions) [
  | none ↦ none
  | some text ↦ elim (with_resolutions fs) [ none ↦ none | some more ↦ some ((f, text) ∷ more) ]
]

-- All goes to one buffer, behind the header; `none` is a write past its end, or past that of the
-- memory for a menu or for a list of resolutions.
unfoldable pub send_input_json : List Control → List InputFormat → Option (List ℕ)
unfolding input_menu with_menus controls_text with_resolutions format_text described
send_input_json controls formats = elim (with_menus input_menu controls) [
  | none ↦ none
  | some listed ↦ elim (with_resolutions formats) [
    | none ↦ none
    | some shown ↦ described (
        controls_text (codes "0") listed (
          sprintf (codes "\n],\n" ∷ codes "\"formats\": [\n" ∷ []) (
            with_commas format_text (codes "},\n") (codes "}\n") shown
              (sprintf (codes "\n]\n}\n" ∷ []) []))))
  ]
]
