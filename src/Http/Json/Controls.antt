-- ===== src/Http/Json/Controls.antt =====
-- The controls of a plugin in its description: check_JSON_string and the part that send_input_JSON and
-- send_output_JSON share.
use raspberry_car.Base.{
  ℕ, ◌+◌, ◌-◌, Bool, false, ◌&&◌, List, [], ◌∷◌, Option, none, some, leb, ◌==◌, if◌then◌else◌,
}
use raspberry_car.Base.Int.{ℤ, pos, negsuc}
use raspberry_car.CString.{codes}
use raspberry_car.Http.Json.Text.{sprintf, signed, with_commas}

-- `isprint` in the C locale. A byte above 127 is a negative `char`, and is not printable.
unfoldable pub is_print : ℕ → Bool
is_print c = leb 32 c && leb c 126

unfoldable pub check_json_string : List ℕ → List ℕ
unfolding is_print
check_json_string [] = []
check_json_string (c ∷ source) = (if is_print c then c else 32) ∷ check_json_string source

-- `struct _control`; `menuitems` holds the names of the items, and is NULL where the control has none.
pub record Control : Type 0 where
  pub name : List ℕ
  pub id : ℤ
  pub type : ℤ
  pub minimum : ℤ
  pub maximum : ℤ
  pub step : ℤ
  pub default_value : ℤ
  pub flags : ℤ
  pub value : ℤ
  pub group : ℤ
  pub menuitems : Option (List (List ℕ))

-- `type == V4L2_CTRL_TYPE_MENU`
unfoldable pub is_menu : Control → Bool
is_menu c = elim c.type [ pos n ↦ n == 3 | negsuc n ↦ false ]

-- A control with its `menuString`, for a plugin whose code is `dest`.
unfoldable pub control_text : List ℕ → Control × List ℕ → List ℕ → List ℕ
unfolding is_menu
control_text dest (c, menu) rest =
    sprintf
      (codes "{\n\"name\": \""
        ∷ c.name
        ∷ codes "\",\n\"id\": \""
        ∷ signed c.id
        ∷ codes "\",\n\"type\": \""
        ∷ signed c.type
        ∷ codes "\",\n\"min\": \""
        ∷ signed c.minimum
        ∷ codes "\",\n\"max\": \""
        ∷ signed c.maximum
        ∷ codes "\",\n\"step\": \""
        ∷ signed c.step
        ∷ codes "\",\n\"default\": \""
        ∷ signed c.default_value
        ∷ codes "\",\n\"value\": \""
        ∷ signed c.value
        ∷ codes "\",\n\"dest\": \""
        ∷ dest
        ∷ codes "\",\n\"flags\": \""
        ∷ signed c.flags
        ∷ codes "\",\n\"group\": \""
        ∷ signed c.group
        ∷ codes "\""
        ∷ [])
      (if is_menu c
        then sprintf (codes ",\n\"menu\": {" ∷ menu ∷ codes "}\n}" ∷ []) rest
        else sprintf (codes "\n}" ∷ []) rest)

-- The loop over the items of a menu from `minimum` to `maximum`; `loop` is given the first number and how
-- many there are. `none` is a read outside the items, or `%s` of the `menuString` that stays NULL.
unfoldable pub items_from :
    (List (List ℕ) → ℕ → ℕ → Option (List ℕ)) → List (List ℕ) → ℤ → ℤ → Option (List ℕ)
items_from loop items (pos a) (pos b) = if leb a b then loop items a (b - a + 1) else none
items_from loop items _ _ = none

unfoldable pub menu_string : (List (List ℕ) → ℕ → ℕ → Option (List ℕ)) → Control → Option (List ℕ)
unfolding is_menu items_from
menu_string loop c =
    if is_menu c
    then (elim c.menuitems [ none ↦ none | some items ↦ items_from loop items c.minimum c.maximum ])
    else some []

-- The controls with their menus, in their order.
unfoldable pub with_menus :
    (List (List ℕ) → ℕ → ℕ → Option (List ℕ)) → List Control → Option (List (Control × List ℕ))
unfolding menu_string
with_menus loop [] = some []
with_menus loop (c ∷ cs) = elim (menu_string loop c) [
  | none ↦ none
  | some menu ↦ elim (with_menus loop cs) [ none ↦ none | some more ↦ some ((c, menu) ∷ more) ]
]

unfoldable pub controls_text : List ℕ → List (Control × List ℕ) → List ℕ → List ℕ
unfolding control_text
controls_text dest controls rest =
    sprintf (codes "{\n" ∷ codes "\"controls\": [\n" ∷ [])
      (with_commas (control_text dest) (codes ",\n") [] controls rest)
