-- ===== src/Http/Tests/Commands.antt =====
-- Runs of command.
use raspberry_car.Base.{ℕ, ◌≡◌, refl, not, List, some}
use raspberry_car.Base.Int.{ℤ, pos, negsuc}
use raspberry_car.CString.{codes, strstr, span, is_prefix, is_digit}
use raspberry_car.Http.Command.{
  Call, is_number_char, digits_value, to_int, variable, number_in, command,
}
use raspberry_car.Http.Command.Range.{ResultReaches, has_minus, command-Reaches}

abbrev focus : List ℕ
focus = codes "dest=1&plugin=1&id=10094852&group=1&value=-1"

abbrev fails : Call → ℤ
fails c = negsuc 0

command-Reaches_example : ResultReaches (not (has_minus focus)) 1 2 (command 1 2 fails (some focus))
command-Reaches_example = command-Reaches 1 2 fails focus

abbrev before : List ℕ
before = codes "id=1&plugin=-1"

before-id : variable before (codes "id=") ≡ some (codes "1&plugin=-1")
unfolding variable strstr is_prefix
before-id = refl

before-dest : number_in before (codes "dest=") (pos 0) ≡ pos 0
unfolding number_in variable strstr is_prefix
before-dest = refl

before-plugin : number_in before (codes "plugin=") (pos 0) ≡ negsuc 0
unfolding number_in variable strstr is_prefix span is_number_char is_digit to_int digits_value
before-plugin = refl
