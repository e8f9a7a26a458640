-- ===== src/Http/Json/Outputs.antt =====
-- The description of an output plugin, whole.
use raspberry_car.Http.Json.Possible.{GoodControl, listed_of}
use raspberry_car.Base.{
  ℕ, suc, ◌+◌, ◌-◌, arith, leb, Bool-cases, ◌≡◌, refl, ap, ◌∙◌, true, false, List, [], ◌∷◌, ◌++◌,
  none, some, Option-cases, inl, inr, All,
}
use raspberry_car.Base.Int.{ℤ, pos, negsuc}
use raspberry_car.CString.{codes}
use raspberry_car.Http.Json.Text.{sprintf}
use raspberry_car.Http.Json.Controls.{
  Control, is_menu, controls_text, items_from, menu_string, with_menus,
}
use raspberry_car.Http.Json.Output.{output_menu, output_text, send_output_json}
use raspberry_car.Http.Json.Strings.{Plain}
use raspberry_car.Http.Json.Parts.{onto-onto}
use raspberry_car.Http.Json.Members.{all_plain, all_plain-Plain}
use raspberry_car.Http.Json.Menus.{output_items-none}
use raspberry_car.Http.Json.Reader.{
  Token, open_object, close_object, open_array, close_array, name, onto, read, document,
}
use raspberry_car.Http.Json.Whole.{controls-read, controls_tokens}

items_from-none : (items : List (List ℕ)) (a b : ℤ) → items_from output_menu items a b ≡ none
unfolding items_from output_menu
items_from-none items (pos a) (pos b) = elim (Bool-cases (leb a b)) [
  | inl h ↦
      let e : b - a + 1 ≡ suc (b - a) = omega arith in
      rw (items_from, h, e) (output_items-none items [] a (b - a))
  | inr h ↦ rw (items_from, h)
]
items_from-none items (pos a) (negsuc b) = refl
items_from-none items (negsuc a) (pos b) = refl
items_from-none items (negsuc a) (negsuc b) = refl

menu_string-none : (c : Control) → is_menu c ≡ true → menu_string output_menu c ≡ none
unfolding menu_string
menu_string-none c h = elim (Option-cases c.menuitems) [
  | inl e ↦ rw (menu_string, h, e)
  | inr (items, e) ↦ rw (menu_string, h, e) (items_from-none items c.minimum c.maximum)
]

with_menus-none :
    (before after : List Control) (c : Control)
    → is_menu c ≡ true
    → with_menus output_menu (before ++ c ∷ after) ≡ none
unfolding with_menus
with_menus-none [] after c h = rw (with_menus, menu_string-none c h)
with_menus-none (b ∷ before) after c h = elim (Option-cases (menu_string output_menu b)) [
  | inl e ↦ rw (with_menus, e)
  | inr (t, e) ↦ rw (with_menus, e, with_menus-none before after c h)
]

-- The description of an output plugin that has a menu among its controls, wherever, is never sent as it
-- should: an item of the menu is written past the end of its memory, or the menu has no text at all.
pub send_output_json-none :
    (before after : List Control) (c : Control)
    → is_menu c ≡ true
    → send_output_json (before ++ c ∷ after) ≡ none
unfolding send_output_json output_text
send_output_json-none before after c h =
    rw (send_output_json, output_text, with_menus-none before after c h)

abbrev pub GoodOutput : Control → Type 0
GoodOutput c = Plain c.name × (is_menu c ≡ false)

GoodOutput-good : (cs : List Control) → All GoodOutput cs → All GoodControl cs
GoodOutput-good [] h = tt
GoodOutput-good (c ∷ cs) h = ((h.0.0, inl h.0.1), GoodOutput-good cs h.1)

with_menus-plain :
    (cs : List Control) → All GoodOutput cs → with_menus output_menu cs ≡ some (listed_of cs)
unfolding with_menus menu_string
with_menus-plain [] h = refl
with_menus-plain (c ∷ cs) h = rw (with_menus, menu_string, h.0.1, with_menus-plain cs h.1)

-- Controls of an output plugin with plain names and no menus are described as a JSON document: an object
-- with an array of an object for each control, in their order.
pub output_text-document :
    (controls : List Control)
    → All GoodOutput controls
    → (text : List ℕ) × (output_text controls ≡ some text)
      × (document text
          ≡ some (
              open_object
                ∷ name (codes "controls")
                ∷ open_array
                ∷ controls_tokens (codes "1") controls
              ++ close_array ∷ close_object ∷ []))
unfolding output_text controls_text document read onto
output_text-document controls h =
    let s1 : List Token = open_array ∷ name (codes "controls") ∷ open_object ∷ [] in
    let one_plain : Plain (codes "1") = unfold all_plain in all_plain-Plain (codes "1") refl in
    (
      controls_text (codes "1") (listed_of controls)
          (sprintf (codes "\n]\n" ∷ codes "}\n" ∷ []) []),
      rw (output_text, with_menus-plain controls h),
      controls-read (codes "1") controls (codes "\n}\n") s1 one_plain (GoodOutput-good controls h)
          ∙ ap some (
              onto-onto (controls_tokens (codes "1") controls) s1
                (close_array ∷ close_object ∷ [])),
    )
