-- ===== src/Http/Json/Tests.antt =====
-- The descriptions of some clients, plugins and controls.
use raspberry_car.Http.Json.Possible.{GoodControl}
use raspberry_car.Http.Json.Shown.{GoodFormat}
use raspberry_car.Base.{
  ℕ, ◌≡◌, refl, true, false, List, [], ◌∷◌, some, inr, arith, if◌then◌else◌, ltb, length, none,
  ◌++◌,
}
use raspberry_car.Base.Int.{pos, negsuc}
use raspberry_car.CString.{codes}
use raspberry_car.Http.Clients.{ClientInfo}
use raspberry_car.Http.Json.Controls.{Control, is_menu}
use raspberry_car.Http.Json.Input.{InputFormat, Resolution, send_input_json}
use raspberry_car.Http.Json.Members.{all_plain, all_plain-Plain}
use raspberry_car.Http.Json.Reader.{document}
use raspberry_car.Http.Json.Text.{json_header, json_buffer_size}
use raspberry_car.Http.Json.Whole.{input_tokens, send_input_json-document}

abbrev carla : ClientInfo
carla = record {
  address = codes "10.0.0.7";
  last_take_time = record { tv_sec = 1700000000; tv_usec = 0 };
}

abbrev power_line : Control
power_line = record {
  name = codes "Power Line Frequency";
  id = pos 9963800;
  type = pos 3;
  minimum = pos 0;
  maximum = pos 1;
  step = pos 1;
  default_value = pos 0;
  flags = pos 0;
  value = pos 1;
  group = pos 1;
  menuitems = some (codes "Disabled" ∷ codes "50 Hz" ∷ []);
}

abbrev brightness : Control
brightness = record power_line { name = codes "Brightness"; type = pos 1; minimum = negsuc 63 }

abbrev vga : Resolution
vga = record { width = 640; height = 480 }

abbrev mjpg : InputFormat
mjpg = record {
  index = 0;
  description = codes "MJPEG";
  compressed = true;
  emulated = false;
  current_resolution = pos 0;
  resolutions = vga ∷ [];
}

power_line-GoodControl : GoodControl power_line
unfolding all_plain is_menu
power_line-GoodControl = (
  all_plain-Plain power_line.name refl,
  inr (
    refl,
    record {
      items = codes "Disabled" ∷ codes "50 Hz" ∷ [];
      first = 0;
      more = 1;
      has_items = refl;
      has_minimum = refl;
      has_maximum = refl;
      in_items = omega arith;
      in_hundred = omega arith;
      unquoted = ground arith;
    },
  ),
)

mjpg-GoodFormat : GoodFormat mjpg
unfolding all_plain
mjpg-GoodFormat = record {
  plain = all_plain-Plain mjpg.description refl;
  first = vga;
  others = [];
  some_resolution = refl;
  small = omega arith;
  not_many = omega arith;
}

send_input_json-document_example :
    (text : List ℕ) × (send_input_json (power_line ∷ []) (mjpg ∷ []) ≡ (
      if ltb (length (json_header ++ text)) json_buffer_size
      then some (json_header ++ text)
      else none))
    × (document text ≡ some (input_tokens (power_line ∷ []) (mjpg ∷ [])))
send_input_json-document_example =
    send_input_json-document (power_line ∷ []) (mjpg ∷ []) (power_line-GoodControl, tt)
      (mjpg-GoodFormat, tt)

power_line_menu : is_menu power_line ≡ true
unfolding is_menu
power_line_menu = refl
