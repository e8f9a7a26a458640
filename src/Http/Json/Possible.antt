-- ===== src/Http/Json/Possible.antt =====
-- The controls that the code can describe, and their menus.
use raspberry_car.Base.{
  ℕ, ◌+◌, ◌-◌, ◌<◌, ◌≡◌, ◌≢◌, refl, true, false, ◌⊎◌, inl, inr, List, [], ◌∷◌, Option, some, All,
  length, leb, arith, if◌then◌else◌,
}
use raspberry_car.Base.Int.{ℤ, pos}
use raspberry_car.CString.{codes}
use raspberry_car.Http.Json.Controls.{
  is_print, check_json_string, Control, is_menu, items_from, menu_string, with_menus,
}
use raspberry_car.Http.Json.Input.{input_menu}
use raspberry_car.Http.Json.Strings.{Plain}
use raspberry_car.Http.Json.Members.{Member, members_text}
use raspberry_car.Http.Json.Menus.{menu_members, input_items_lem}
use raspberry_car.Http.Json.Reader.{is_plain}

-- Neither a quote nor a backslash.
abbrev pub Unquoted : List ℕ → Type 0
Unquoted = All (λ (c : ℕ). (c ≢ b'"') × (c ≢ b'\\'))

check_char : (c : ℕ) → (c ≢ b'"') → (c ≢ b'\\') → is_plain (if is_print c then c else 32) ≡ true
unfolding is_plain is_print
check_char c h k = ground arith

-- What is not printable becomes a space, so quotes and backslashes are all that is left to spoil a string.
pub check_json_string-Plain : (s : List ℕ) → Unquoted s → Plain (check_json_string s)
unfolding check_json_string
check_json_string-Plain [] h = tt
check_json_string-Plain (c ∷ s) h = (check_char c h.0.0 h.0.1, check_json_string-Plain s h.1)

-- A menu that the code can write: items for every number from the minimum to the maximum, the numbers
-- below 100.
pub record GoodMenu (c : Control) : Type 0 where
  pub items : List (List ℕ)
  pub first : ℕ
  pub more : ℕ
  pub has_items : c.menuitems ≡ some items
  pub has_minimum : c.minimum ≡ pos first
  pub has_maximum : c.maximum ≡ pos (first + more)
  pub in_items : first + more < length items
  pub in_hundred : first + more < 100
  pub unquoted : All Unquoted items

abbrev pub GoodControl : Control → Type 0
GoodControl c = Plain c.name × ((is_menu c ≡ false) ⊎ ((is_menu c ≡ true) × GoodMenu c))

-- The members of the menu of a control.
abbrev members_from : Option (List (List ℕ)) → ℤ → ℤ → List Member
members_from (some items) (pos a) (pos b) = menu_members items a (b - a + 1)
members_from _ _ _ = []

abbrev pub menu_of : Control → List Member
menu_of c = members_from c.menuitems c.minimum c.maximum

abbrev pub menu_text : Control → List ℕ
menu_text c = if is_menu c then members_text (codes ", ") (menu_of c) [] else []

items_from_good :
    (items : List (List ℕ)) (first more : ℕ)
    → first + more < length items
    → first + more < 100
    → items_from input_menu items (pos first) (pos (first + more))
      ≡ some (
          members_text (codes ", ") (members_from (some items) (pos first) (pos (first + more))) [])
unfolding items_from input_menu
items_from_good items first more h k =
    let order : leb first (first + more) ≡ true = ground arith in
    let count : first + more - first + 1 ≡ more + 1 = omega arith in
    rw (items_from, order, count)
      (input_items_lem items [] first (more + 1) (omega arith) (omega arith))

menu_string_good : (c : Control) → GoodControl c → menu_string input_menu c ≡ some (menu_text c)
unfolding menu_string
menu_string_good c (plain, inl h) = rw h
menu_string_good c (plain, inr (h, g)) =
    rw (menu_string, h, g.has_items, g.has_minimum, g.has_maximum)
      (items_from_good g.items g.first g.more g.in_items g.in_hundred)

abbrev pub listed_of : List Control → List (Control × List ℕ)
listed_of [] = []
listed_of (c ∷ cs) = (c, menu_text c) ∷ listed_of cs

pub with_menus_good :
    (cs : List Control) → All GoodControl cs → with_menus input_menu cs ≡ some (listed_of cs)
unfolding with_menus
with_menus_good [] h = refl
with_menus_good (c ∷ cs) h = rw (with_menus, menu_string_good c h.0, with_menus_good cs h.1)
