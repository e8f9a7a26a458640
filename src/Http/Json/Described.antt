-- ===== src/Http/Json/Described.antt =====
-- The controls in the descriptions of plugins.
use raspberry_car.Base.{
  ℕ, zero, suc, ◌+◌, ◌-◌, ◌≡◌, refl, sym, ap, ◌∙◌, true, false, inl, inr, Option-cases, List, [],
  ◌∷◌, ◌++◌, All, get_elem?, get_elem?-lt, All-get_elem?, arith, if◌then◌else◌,
}
use raspberry_car.CString.{codes}
use raspberry_car.Decimal.{decimal}
use raspberry_car.Http.Json.Text.{sprintf, signed}
use raspberry_car.Http.Json.Controls.{check_json_string, Control, is_menu, control_text}
use raspberry_car.Http.Json.Strings.{Plain}
use raspberry_car.Http.Json.Parts.{onto-append, decimal-Plain, signed-Plain}
use raspberry_car.Http.Json.Members.{
  Member, members_text, member_tokens, PlainMember, all_plain, all_plain-Plain, members-append,
  members-read_brace,
}
use raspberry_car.Http.Json.Menus.{menu_members}
use raspberry_car.Http.Json.Reader.{
  Token, Bracket, object, open_object, close_object, name, value, behind_value, onto, read,
}
use raspberry_car.Http.Json.Possible.{
  Unquoted, check_json_string-Plain, GoodControl, menu_of, menu_text, GoodMenu,
}

-- The texts of a control, without its menu.
abbrev pub control_members : List ℕ → Control → List Member
control_members dest c =
    (codes "name", c.name)
    ∷ (codes "id", signed c.id)
    ∷ (codes "type", signed c.type)
    ∷ (codes "min", signed c.minimum)
    ∷ (codes "max", signed c.maximum)
    ∷ (codes "step", signed c.step)
    ∷ (codes "default", signed c.default_value)
    ∷ (codes "value", signed c.value)
    ∷ (codes "dest", dest)
    ∷ (codes "flags", signed c.flags)
    ∷ (codes "group", signed c.group)
    ∷ []

abbrev pub menu_tokens : Control → List Token
menu_tokens c =
    if is_menu c
    then name (codes "menu") ∷ open_object ∷ member_tokens (menu_of c) ++ close_object ∷ []
    else []

abbrev pub control_tokens : List ℕ → Control × List ℕ → List Token
control_tokens dest (c, menu) =
    open_object ∷ member_tokens (control_members dest c) ++ menu_tokens c ++ close_object ∷ []

control_end : Control → List ℕ → List ℕ → List ℕ
control_end c menu rest =
    if is_menu c
    then sprintf (codes ",\n\"menu\": {" ∷ menu ∷ codes "}\n}" ∷ []) rest
    else sprintf (codes "\n}" ∷ []) rest

control_text_members :
    (dest : List ℕ) (c : Control) (menu rest : List ℕ)
    → control_text dest (c, menu) rest
      ≡ sprintf
          (codes "{\n" ∷ [])
          (members_text (codes ",\n") (control_members dest c) (control_end c menu rest))
unfolding control_text control_end members_text
control_text_members dest c menu rest = refl

menu-read :
    (m : Member) (ms : List Member) (rest : List ℕ) (inside : List Bracket) (seen : List Token)
    → All PlainMember (m ∷ ms)
    → read
        (sprintf
          (codes ",\n\"menu\": {" ∷ members_text (codes ", ") (m ∷ ms) [] ∷ codes "}\n}" ∷ [])
          rest)
        behind_value
        (object ∷ inside)
        seen
      ≡ read rest behind_value inside (
          close_object
          ∷ onto
              (name (codes "menu") ∷ open_object ∷ member_tokens (m ∷ ms) ++ close_object ∷ [])
              seen)
unfolding read onto
menu-read m ms rest inside seen h =
    let seen' : List Token = open_object ∷ name (codes "menu") ∷ seen in
    rw
      (
        members-append (codes ", ") (m ∷ ms) [] (sprintf (codes "}\n}" ∷ []) rest),
        onto-append (member_tokens (m ∷ ms)) (close_object ∷ []) seen',
      )
      (members-read_brace (codes ", ") (λ r i s. refl) m ms (sprintf (codes "}\n}" ∷ []) rest)
        (object ∷ inside) seen' h)

menu_members-Plain :
    (items : List (List ℕ)) (j count : ℕ)
    → All Unquoted items
    → All PlainMember (menu_members items j count)
menu_members-Plain items j zero h = tt
menu_members-Plain items j (suc count) h = elim (Option-cases (get_elem? items j)) [
  | inl out ↦ rw (menu_members, out) tt
  | inr (s, e) ↦
      rw (menu_members, e)
        (
          (decimal-Plain j, check_json_string-Plain s (All-get_elem? Unquoted items j h e)),
          menu_members-Plain items (j + 1) count h,
        )
]

module _ (c : Control) (rest : List ℕ) (inside : List Bracket) (seen : List Token) where
  control_end-plain :
      is_menu c ≡ false
      → read (control_end c (menu_text c) rest) behind_value (object ∷ inside) seen
        ≡ read rest behind_value inside (close_object ∷ onto (menu_tokens c) seen)
  unfolding read control_end onto
  control_end-plain h = rw h

  control_end-menu :
      is_menu c ≡ true
      → GoodMenu c
      → read (control_end c (menu_text c) rest) behind_value (object ∷ inside) seen
        ≡ read rest behind_value inside (close_object ∷ onto (menu_tokens c) seen)
  unfolding control_end
  control_end-menu h g =
      let (s, e) = get_elem?-lt g.items g.first (omega (arith, g.in_items)) in
      let count : g.first + g.more - g.first + 1 ≡ suc g.more = omega arith in
      let first_item : menu_of c
          ≡ (decimal g.first, check_json_string s) ∷ menu_members g.items (g.first + 1) g.more =
        rw (g.has_items, g.has_minimum, g.has_maximum, count) (rw (menu_members, e)) in
      rw (h, first_item)
        (menu-read (decimal g.first, check_json_string s)
          (menu_members g.items (g.first + 1) g.more) rest inside seen
          (
            (
              decimal-Plain g.first,
              check_json_string-Plain s (All-get_elem? Unquoted g.items g.first g.unquoted e),
            ),
            menu_members-Plain g.items (g.first + 1) g.more g.unquoted,
          ))

  control_end-read :
      GoodControl c
      → read (control_end c (menu_text c) rest) behind_value (object ∷ inside) seen
        ≡ read rest behind_value inside (close_object ∷ onto (menu_tokens c) seen)
  control_end-read (plain, inl h) = control_end-plain h
  control_end-read (plain, inr (h, g)) = control_end-menu h g

control_members-Plain :
    (dest : List ℕ) (c : Control)
    → Plain dest
    → Plain c.name
    → All PlainMember (control_members dest c)
unfolding all_plain
control_members-Plain dest c p h = (
  (all_plain-Plain (codes "name") refl, h),
  (
    (all_plain-Plain (codes "id") refl, signed-Plain c.id),
    (
      (all_plain-Plain (codes "type") refl, signed-Plain c.type),
      (
        (all_plain-Plain (codes "min") refl, signed-Plain c.minimum),
        (
          (all_plain-Plain (codes "max") refl, signed-Plain c.maximum),
          (
            (all_plain-Plain (codes "step") refl, signed-Plain c.step),
            (
              (all_plain-Plain (codes "default") refl, signed-Plain c.default_value),
              (
                (all_plain-Plain (codes "value") refl, signed-Plain c.value),
                (
                  (all_plain-Plain (codes "dest") refl, p),
                  (
                    (all_plain-Plain (codes "flags") refl, signed-Plain c.flags),
                    ((all_plain-Plain (codes "group") refl, signed-Plain c.group), tt),
                  ),
                ),
              ),
            ),
          ),
        ),
      ),
    ),
  ),
)

pub control-read :
    (dest : List ℕ) (c : Control) (rest : List ℕ) (inside : List Bracket) (seen : List Token)
    → Plain dest
    → GoodControl c
    → read (control_text dest (c, menu_text c) rest) value inside seen
      ≡ read rest behind_value inside (onto (control_tokens dest (c, menu_text c)) seen)
unfolding read onto
control-read dest c rest inside seen p g =
    let menu = menu_text c in
    let end = control_end c menu rest in
    let ms : List Member =
      (codes "id", signed c.id)
      ∷ (codes "type", signed c.type)
      ∷ (codes "min", signed c.minimum)
      ∷ (codes "max", signed c.maximum)
      ∷ (codes "step", signed c.step)
      ∷ (codes "default", signed c.default_value)
      ∷ (codes "value", signed c.value)
      ∷ (codes "dest", dest)
      ∷ (codes "flags", signed c.flags)
      ∷ (codes "group", signed c.group)
      ∷ [] in
    let seen' : List Token = onto (member_tokens (control_members dest c)) (open_object ∷ seen) in
    ap (λ (t : List ℕ). read t value inside seen) (control_text_members dest c menu rest)
    ∙ members-read_brace (codes ",\n") (λ r i s. refl) (codes "name", c.name) ms end inside
        (open_object ∷ seen) (control_members-Plain dest c p g.0)
    ∙ control_end-read c rest inside seen' g
    ∙ ap (λ (s : List Token). read rest behind_value inside s)
        (sym (onto-append (menu_tokens c) (close_object ∷ []) seen'))
