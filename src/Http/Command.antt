-- ===== src/Http/Command.antt =====
-- command: the variables of a command, and the plugin that they go to.
pub mod Range
pub mod Negative
pub mod Answer
use raspberry_car.Base.{
  ℕ, zero, suc, ◌+◌, ◌-◌, ◌*◌, ◌^◌, Bool, true, false, ◌&&◌, ◌||◌, List, [], ◌∷◌, ◌++◌, Option,
  none, some, min, leb, ltb, ◌==◌, if◌then◌else◌, drop, length,
}
use raspberry_car.Base.Int.{ℤ, pos, negsuc, sub_ℕ, ltb_ℤ}
use raspberry_car.CString.{codes, strstr, span, is_digit, is_letter}
use raspberry_car.Decimal.{decimal}

-- A call of a plugin's `cmd`: the arguments plugin, control_id, group, value and valueStr.
pub record Arguments : Type 0 where
  pub plugin_no : ℤ
  pub command_id : ℤ
  pub group : ℤ
  pub ivalue : ℤ
  pub value : Option (List ℕ)

pub data Call : Type 0 where
  input_cmd : Arguments → Call
  output_cmd : Arguments → Call

-- What `command` does: it sends an error, or answers after at most one call.
pub data Result : Type 0 where
  refused : ℕ → Result
  answered : Option Call → List ℕ → Result

unfoldable pub is_word_char : ℕ → Bool
unfolding is_letter is_digit
is_word_char c = is_letter c || c == b'_' || is_digit c

unfoldable pub is_number_char : ℕ → Bool
unfolding is_digit
is_number_char c = c == b'-' || is_digit c

-- The digits at the front of a text, behind those of `n`.
unfoldable pub digits_value : ℕ → List ℕ → ℕ
unfolding is_digit
digits_value n [] = n
digits_value n (c ∷ cs) =
    let longer = digits_value (n * 10 + (c - b'0')) cs in if is_digit c then longer else n

-- `MAX(MIN(strtol(text, NULL, 10), INT_MAX), INT_MIN)`, for a text of digits and minus signs.
unfoldable pub to_int : List ℕ → ℤ
unfolding digits_value
to_int [] = pos 0
to_int (c ∷ cs) =
    if c == b'-'
    then sub_ℕ 0 (min (digits_value 0 cs) (2 ^ 31))
    else pos (min (digits_value 0 (c ∷ cs)) (2 ^ 31 - 1))

-- The text behind a variable's name and `=`.
unfoldable pub variable : List ℕ → List ℕ → Option (List ℕ)
unfolding strstr
variable parameter name = elim (strstr parameter name) [
  | none ↦ none
  | some rest ↦ some (drop (length name) rest)
]

-- The number in a variable, or what stands for it.
unfoldable pub number_in : List ℕ → List ℕ → ℤ → ℤ
unfolding variable is_number_char span to_int
number_in parameter name default = elim (variable parameter name) [
  | none ↦ default
  | some text ↦ to_int (span is_number_char text)
]

-- The variables that the call is made of. The last use of `value` is for the variable "plugin", so
-- its text is what the plugin gets as `valueStr`.
unfoldable pub arguments : List ℕ → List ℕ → Arguments
unfolding number_in variable is_number_char span to_int
arguments parameter name = record {
  plugin_no = number_in parameter (codes "plugin=") (pos 0);
  command_id = to_int (span is_number_char name);
  group = number_in parameter (codes "group=") (pos 0);
  ivalue = number_in parameter (codes "value=") (pos 0);
  value = variable parameter (codes "plugin=");
}

-- The `switch`; `incnt` and `outcnt` are the numbers of plugins.
unfoldable pub call : ℕ → ℕ → ℤ → Arguments → Option Call
call incnt outcnt (pos zero) a = if ltb_ℤ a.plugin_no (pos incnt) then some (input_cmd a) else none
call incnt outcnt (pos (suc zero)) a =
    if ltb_ℤ a.plugin_no (pos outcnt) then some (output_cmd a) else none
call incnt outcnt dest a = none

-- `%d`
unfoldable pub decimal_ℤ : ℤ → List ℕ
unfolding decimal
decimal_ℤ (pos n) = decimal n
decimal_ℤ (negsuc n) = b'-' ∷ decimal (suc n)

abbrev pub command_header : List ℕ
command_header =
    codes
      "HTTP/1.0 200 OK\r\nContent-type: text/plain\r\nConnection: close\r\nServer: MJPG-Streamer/0.2\r\nCache-Control: no-store, no-cache, must-revalidate, pre-check=0, post-check=0, max-age=0\r\nPragma: no-cache\r\nExpires: Mon, 3 Jan 2000 12:34:56 GMT\r\n\r\n"

unfoldable pub response : List ℕ → ℤ → List ℕ
unfolding decimal_ℤ
response name res = command_header ++ (name ++ (codes ": " ++ decimal_ℤ res))

-- What the plugins return.
abbrev pub result_of : (Call → ℤ) → Option Call → ℤ
result_of cmd none = pos 0
result_of cmd (some c) = cmd c

-- `command` with a parameter of a good length.
unfoldable pub perform : ℕ → ℕ → (Call → ℤ) → List ℕ → Result
unfolding variable span is_word_char number_in arguments call response
perform incnt outcnt cmd parameter = elim (variable parameter (codes "id=")) [
  | none ↦ refused 400
  | some text ↦
      let name = span is_word_char text in
      let made =
        call incnt outcnt (number_in parameter (codes "dest=") (pos 0))
          (arguments parameter name) in
      answered made (response name (result_of cmd made))
]

unfoldable pub command : ℕ → ℕ → (Call → ℤ) → Option (List ℕ) → Result
unfolding perform
command incnt outcnt cmd none = refused 400
command incnt outcnt cmd (some parameter) =
    if leb 255 (length parameter) || length parameter == 0
    then refused 400
    else perform incnt outcnt cmd parameter
