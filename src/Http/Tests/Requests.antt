-- ===== src/Http/Tests/Requests.antt =====
-- Runs of client_thread.
use raspberry_car.Base.{ℕ, ◌≡◌, refl, true, false, List, [], ◌∷◌, All, none, some}
use raspberry_car.CString.{codes, c_str, strstr, strchr, is_digit}
use raspberry_car.Http.Base64.{decode_base64}
use raspberry_car.Http.Request.{Build, snapshot_wxp, kind, has, suffix_number}
use raspberry_car.Http.Client.{
  Server, PluginCommand, has_case, to_lower, decode_credentials, goes_on, client_thread,
  authorization,
}
use raspberry_car.Http.Client.Password.{IsError, client_thread-guarded}
use raspberry_car.Http.Client.Plugins.{Loaded}
use raspberry_car.Http.Client.Plugins.Thread.{client_thread-Loaded}
use raspberry_car.Http.Client.Names.{Named}
use raspberry_car.Http.Client.Names.Thread.{client_thread-Named}

-- One input plugin, and two output plugins.
abbrev server : Server
server = record {
  incnt = 1;
  outputs = some (codes "HTTP output plugin") ∷ some (codes "FILE output plugin") ∷ [];
  credentials = none;
  www_folder = some (codes "www/");
  nocommands = true;
}

abbrev both : Build
both = record { managment = true; wxp_compat = true }

abbrev plain : Build
plain = record { managment = true; wxp_compat = false }

abbrev saves : PluginCommand
saves i name = true

abbrev blank : List ℕ
blank = 13 ∷ 10 ∷ []

-- The wrong password.
abbrev wrong : List ℕ
wrong = codes "Authorization: Basic eDp5\r\n"

wrong-decoded : decode_credentials (c_str (codes "eDp5\r\n")) ≡ some (codes "x:y")
unfolding decode_credentials decode_base64 c_str
wrong-decoded = refl

blank-silent : has_case (c_str blank) authorization ≡ false
unfolding has_case to_lower has strstr c_str
blank-silent = refl

client_thread-guarded_example : All IsError (
    client_thread plain
      (record server { credentials = some (codes "user:pw") })
      saves
      false
      (codes "GET /?action=stream HTTP/1.0\r\n" ∷ wrong ∷ blank ∷ []))
unfolding c_str
client_thread-guarded_example =
    client_thread-guarded plain (record server { credentials = some (codes "user:pw") }) saves false
      (codes "GET /?action=stream HTTP/1.0\r\n") (wrong ∷ blank ∷ []) (codes "user:pw") refl
      ((λ h. cc (h.1, wrong-decoded)), ((λ h. cc (h.0, blank-silent)), tt))

client_thread-Loaded_example : All (Loaded true server) (
    client_thread plain server saves false
      (codes "GET /?action=snapshot_1 HTTP/1.0\r\n" ∷ blank ∷ []))
client_thread-Loaded_example =
    client_thread-Loaded plain server saves false
      (codes "GET /?action=snapshot_1 HTTP/1.0\r\n" ∷ blank ∷ [])

abbrev picture : List ℕ
picture = codes "GET /cam_0.jpg HTTP/1.0\r\n"

picture-kind : kind both (c_str picture) ≡ snapshot_wxp
unfolding kind has strstr c_str
picture-kind = refl

picture-suffix : strchr (c_str picture) b'_' ≡ some (codes "_0.jpg HTTP/1.0\r\n")
unfolding strchr c_str
picture-suffix = refl

picture-number : suffix_number (c_str picture) ≡ 0
unfolding suffix_number strchr c_str is_digit
picture-number = refl

blank-last : goes_on blank ≡ false
unfolding goes_on
blank-last = refl

client_thread-Named_example : All Named (
    client_thread plain server saves false
      (codes "GET /tools.cgi?pan=1&tilt=-2 HTTP/1.0\r\n" ∷ blank ∷ []))
client_thread-Named_example =
    client_thread-Named plain server saves false
      (codes "GET /tools.cgi?pan=1&tilt=-2 HTTP/1.0\r\n" ∷ blank ∷ [])
