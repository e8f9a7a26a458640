-- ===== src/Http/Json/Output.antt =====
-- send_output_JSON.
use raspberry_car.Base.{
  ℕ, zero, suc, ◌+◌, List, [], ◌∷◌, ◌++◌, Option, none, some, leb, if◌then◌else◌, length, get_elem?,
}
use raspberry_car.CString.{codes}
use raspberry_car.Decimal.{decimal}
use raspberry_car.Http.Json.Text.{sprintf, if_last, described}
use raspberry_car.Http.Json.Controls.{Control, with_menus, controls_text}

-- The item `j`; `others` more follow it.
unfoldable pub menu_item : ℕ → List ℕ → ℕ → List ℕ
menu_item j item_name others =
    sprintf (codes "\"" ∷ decimal j ∷ codes "\": \"" ∷ item_name ∷ [])
      (if_last others (codes "\"") (codes "\", "))

-- The items from `j` on, behind what `menuString` holds. The memory allocated is that of the string,
-- the name and six characters; `none` is an item written past its end, or read outside the items.
unfoldable pub output_items : List (List ℕ) → List ℕ → ℕ → ℕ → Option (List ℕ)
unfolding menu_item
output_items items menu j zero = some menu
output_items items menu j (suc others) = elim (get_elem? items j) [
  | none ↦ none
  | some item_name ↦
      let longer = menu ++ menu_item j item_name others in
      let rest = output_items items longer (j + 1) others in
      if leb (length longer + 1) (length menu + length item_name + 6) then rest else none
]

unfoldable pub output_menu : List (List ℕ) → ℕ → ℕ → Option (List ℕ)
unfolding output_items
output_menu items j count = output_items items [] j count

unfoldable pub output_text : List Control → Option (List ℕ)
unfolding output_menu with_menus controls_text
output_text controls = elim (with_menus output_menu controls) [
  | none ↦ none
  | some listed ↦
      some (controls_text (codes "1") listed (sprintf (codes "\n]\n" ∷ codes "}\n" ∷ []) []))
]

unfoldable pub send_output_json : List Control → Option (List ℕ)
unfolding output_text described
send_output_json controls = elim (output_text controls) [ none ↦ none | some text ↦ described text ]
