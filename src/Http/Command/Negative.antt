-- ===== src/Http/Command/Negative.antt =====
-- A negative plugin number.
use raspberry_car.Base.{
  ℕ, ◌<◌, ◌≡◌, ap, ◌∙◌, Bool, true, List, [], ◌∷◌, Option, none, some, length, if◌then◌else◌, arith,
}
use raspberry_car.Base.Int.{ℤ, pos, negsuc, ltb_ℤ}
use raspberry_car.CString.{codes, strstr, span, is_prefix}
use raspberry_car.Http.Command.{
  Arguments, Call, input_cmd, answered, is_word_char, variable, number_in, arguments, call, perform,
  command, response, result_of,
}

negative-below : (n count : ℕ) → ltb_ℤ (negsuc n) (pos count) ≡ true
negative-below n count = ground arith

call_negative :
    (incnt outcnt n : ℕ) (dest : ℤ) (a : Arguments)
    → dest ≡ pos 0
    → a.plugin_no ≡ negsuc n
    → call incnt outcnt dest a ≡ some (input_cmd a)
unfolding call
call_negative incnt outcnt n dest a to_input minus =
    ap (λ (d : ℤ). call incnt outcnt d a) to_input
    ∙ ap (λ (m : ℤ). if ltb_ℤ m (pos incnt) then some (input_cmd a) else none) minus
    ∙ ap (λ (b : Bool). if b then some (input_cmd a) else none) (negative-below n incnt)

command_short :
    (incnt outcnt : ℕ) (cmd : Call → ℤ) (parameter : List ℕ)
    → length parameter < 255
    → 0 < length parameter
    → command incnt outcnt cmd (some parameter) ≡ perform incnt outcnt cmd parameter
unfolding command
command_short incnt outcnt cmd parameter short more = ground arith

perform_found :
    (incnt outcnt : ℕ) (cmd : Call → ℤ) (parameter text : List ℕ)
    → variable parameter (codes "id=") ≡ some text
    → let name = span is_word_char text in
      let made =
        call incnt outcnt
          (number_in parameter (codes "dest=") (pos 0))
          (arguments parameter name) in
      perform incnt outcnt cmd parameter ≡ answered made (response name (result_of cmd made))
unfolding perform
perform_found incnt outcnt cmd parameter text found = rw (perform, found)

variable-nonempty :
    (parameter text : List ℕ) → variable parameter (codes "id=") ≡ some text → 0 < length parameter
unfolding variable strstr is_prefix
variable-nonempty [] text h = absurd (none-some h)
  where
    none-some : none ≡ some text → ⊥
    none-some e = cc
variable-nonempty (c ∷ parameter) text h = omega arith

-- A command with an id, shorter than 255 characters, for an input plugin whose number is negative,
-- is handed to that plugin all the same: the number is an index before the first plugin.
pub command_negative :
    (incnt outcnt : ℕ) (cmd : Call → ℤ) (parameter text : List ℕ) (n : ℕ)
    → length parameter < 255
    → variable parameter (codes "id=") ≡ some text
    → number_in parameter (codes "dest=") (pos 0) ≡ pos 0
    → number_in parameter (codes "plugin=") (pos 0) ≡ negsuc n
    → let made = input_cmd (arguments parameter (span is_word_char text)) in
      (command incnt outcnt cmd (some parameter)
        ≡ answered (some made) (response (span is_word_char text) (cmd made)))
      × ((arguments parameter (span is_word_char text)).plugin_no ≡ negsuc n)
unfolding arguments
command_negative incnt outcnt cmd parameter text n short found dest minus =
    let name = span is_word_char text in
    let a = arguments parameter name in
    (
      command_short incnt outcnt cmd parameter short (variable-nonempty parameter text found)
          ∙ perform_found incnt outcnt cmd parameter text found
          ∙ ap (λ (m : Option Call). answered m (response name (result_of cmd m)))
              (call_negative incnt outcnt n (number_in parameter (codes "dest=") (pos 0)) a dest
                minus),
      minus,
    )
