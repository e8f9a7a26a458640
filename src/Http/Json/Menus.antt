-- ===== src/Http/Json/Menus.antt =====
-- The memory of the menus.
use raspberry_car.Base.{
  ℕ, zero, suc, ◌+◌, ◌/◌, ◌%◌, ◌≤◌, ◌<◌, ◌≡◌, refl, ap, ◌∙◌, true, false, List, [], ◌∷◌, ◌++◌,
  append_assoc, append-nil, none, some, inl, inr, Option-cases, leb, length, length-append,
  get_elem?, get_elem?-lt, arith,
}
use raspberry_car.CString.{codes}
use raspberry_car.Decimal.{decimal, decimal_from}
use raspberry_car.Http.Json.Text.{if_last}
use raspberry_car.Http.Json.Controls.{check_json_string}
use raspberry_car.Http.Json.Members.{Member, members_text}
use raspberry_car.Http.Json.Output.{menu_item, output_items}
use raspberry_car.Http.Json.Input.{input_items}

lt_length-decimal_from : (fuel n : ℕ) (acc : List ℕ) → length acc < length (decimal_from fuel n acc)
unfolding decimal_from
lt_length-decimal_from zero n acc = omega arith
lt_length-decimal_from (suc fuel) n acc =
    ground (arith, lt_length-decimal_from fuel (n / 10) ((b'0' + n % 10) ∷ acc))

pub length-decimal_pos : (n : ℕ) → 0 < length (decimal n)
unfolding decimal
length-decimal_pos n = lt_length-decimal_from n n []

decimal_from_small :
    (fuel n : ℕ) (acc : List ℕ) → n < 10 → decimal_from fuel n acc ≡ (b'0' + n % 10) ∷ acc
unfolding decimal_from
decimal_from_small zero n acc h = refl
decimal_from_small (suc fuel) n acc h = ground arith

pub length-decimal_le : (n : ℕ) → n < 100 → length (decimal n) ≤ 2
unfolding decimal decimal_from
length-decimal_le zero h = omega arith
length-decimal_le (suc n) h =
    ground (arith, decimal_from_small n (suc n / 10) ((b'0' + suc n % 10) ∷ []))

length-check_json_string : (s : List ℕ) → length (check_json_string s) ≡ length s
unfolding check_json_string
length-check_json_string [] = refl
length-check_json_string (c ∷ s) = omega (arith, length-check_json_string s)

length-menu_item :
    (j others : ℕ) (s : List ℕ)
    → length (menu_item j s others) ≡ length (decimal j) + length s + (if_last others 6 8)
unfolding menu_item
length-menu_item j zero s = omega (
  arith,
  length-append (decimal j) (codes "\": \"" ++ (s ++ codes "\"")),
  length-append s (codes "\""),
)
length-menu_item j (suc n) s = omega (
  arith,
  length-append (decimal j) (codes "\": \"" ++ (s ++ codes "\", ")),
  length-append s (codes "\", "),
)

-- Every item of a menu in the description of an output plugin is written past the end of its memory.
pub output_items-none :
    (items : List (List ℕ)) (menu : List ℕ) (j others : ℕ)
    → output_items items menu j (suc others) ≡ none
unfolding output_items
output_items-none items menu j others = elim (Option-cases (get_elem? items j)) [
  | inl out ↦ rw (output_items, out)
  | inr (s, e) ↦
      let long : leb (length (menu ++ menu_item j s others) + 1) (length menu + length s + 6)
          ≡ false =
        too_long s others in
      rw (output_items, e, long)
]
  where
    too_long :
        (s : List ℕ) (n : ℕ)
        → leb (length (menu ++ menu_item j s n) + 1) (length menu + length s + 6) ≡ false
    too_long s zero =
        ground (
          arith,
          length-append menu (menu_item j s 0),
          length-menu_item j 0 s,
          length-decimal_pos j,
        )
    too_long s (suc n) = ground (
      arith,
      length-append menu (menu_item j s (suc n)),
      length-menu_item j (suc n) s,
      length-decimal_pos j,
    )

-- The members of a menu: the items from `j` on, under their numbers.
abbrev pub menu_members : List (List ℕ) → ℕ → ℕ → List Member
menu_members items j zero = []
menu_members items j (suc others) = elim (get_elem? items j) [
  | none ↦ []
  | some s ↦ (decimal j, check_json_string s) ∷ menu_members items (j + 1) others
]

input_items_step :
    (items : List (List ℕ)) (menu s : List ℕ) (j others : ℕ)
    → get_elem? items j ≡ some s
    → j < 100
    → input_items items menu j (suc others)
      ≡ input_items items (menu ++ menu_item j (check_json_string s) others) (j + 1) others
unfolding input_items
input_items_step items menu s j others e h =
    let fits : leb (length (menu ++ menu_item j (check_json_string s) others) + 1)
          (length menu + length s + 11)
        ≡ true =
      short others in
    rw (input_items, e, fits)
  where
    short :
        (n : ℕ)
        → leb
            (length (menu ++ menu_item j (check_json_string s) n) + 1)
            (length menu + length s + 11)
          ≡ true
    short zero = ground (
      arith,
      length-append menu (menu_item j (check_json_string s) 0),
      length-menu_item j 0 (check_json_string s),
      length-decimal_le j h,
      length-check_json_string s,
    )
    short (suc n) = ground (
      arith,
      length-append menu (menu_item j (check_json_string s) (suc n)),
      length-menu_item j (suc n) (check_json_string s),
      length-decimal_le j h,
      length-check_json_string s,
    )

menu_item_members :
    (items : List (List ℕ)) (s : List ℕ) (j others : ℕ)
    → j + 1 + others ≤ length items
    → menu_item j s others ++ members_text (codes ", ") (menu_members items (j + 1) others) []
      ≡ members_text (codes ", ") ((decimal j, s) ∷ menu_members items (j + 1) others) []
unfolding menu_item members_text
menu_item_members items s j zero h = simp (append-nil, append_assoc)
menu_item_members items s j (suc others) h =
    let (t, e) = get_elem?-lt items (j + 1) (omega arith) in
    rw (menu_members, e) (simp append_assoc)

-- A menu of an input plugin whose items have numbers below 100 fits its memory, each item with its
-- number and its printable name.
pub input_items_lem :
    (items : List (List ℕ)) (menu : List ℕ) (j count : ℕ)
    → j + count ≤ length items
    → j + count ≤ 100
    → input_items items menu j count
      ≡ some (menu ++ members_text (codes ", ") (menu_members items j count) [])
input_items_lem items menu j zero h k = unfold input_items members_text in rw append-nil
input_items_lem items menu j (suc others) h k =
    let (s, e) = get_elem?-lt items j (omega arith) in
    let s' = check_json_string s in
    input_items_step items menu s j others e (omega arith)
    ∙ input_items_lem items (menu ++ menu_item j s' others) (j + 1) others (omega arith)
        (omega arith)
    ∙ ap some (
        append_assoc menu (menu_item j s' others)
          (members_text (codes ", ") (menu_members items (j + 1) others) [])
        ∙ rw (menu_members, e)
            (ap (λ (t : List ℕ). menu ++ t) (menu_item_members items s' j others (omega arith))))
