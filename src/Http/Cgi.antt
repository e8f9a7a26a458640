-- ===== src/Http/Cgi.antt =====
-- execute_cgi: the command that runs a script, and its output.
pub mod Command
pub mod Tests
use raspberry_car.Base.{
  ℕ, zero, suc, ◌+◌, Bool, true, false, List, [], ◌∷◌, ◌++◌, Option, none, some, leb, ltb,
  if◌then◌else◌, length, take, drop,
}
use raspberry_car.CString.{codes}
use raspberry_car.Decimal.{decimal}
use raspberry_car.Http.File.{absolute_path}
use raspberry_car.Http.Json.Text.{sprintf}

-- `enviroment`, the format of the command.
unfoldable pub environment_format : List ℕ
environment_format =
    sprintf
      (codes "SERVER_SOFTWARE=\"mjpg-streamer\" SERVER_PROTOCOL=\"HTTP/1.1\" "
        ∷ codes "SERVER_PORT=\"%d\" "
        ∷ codes "GATEWAY_INTERFACE=\"CGI/1.1\" REQUEST_METHOD=\"GET\" SCRIPT_NAME=\"%s\" "
        ∷ codes "QUERY_STRING=\"%s\" %s"
        ∷ [])
      []

-- What `sprintf` makes of it.
unfoldable pub cgi_command : ℕ → List ℕ → List ℕ → List ℕ → List ℕ
cgi_command port parameter query_string path =
    sprintf
      (codes "SERVER_SOFTWARE=\"mjpg-streamer\" SERVER_PROTOCOL=\"HTTP/1.1\" "
        ∷ codes "SERVER_PORT=\""
        ∷ decimal port
        ∷ codes "\" GATEWAY_INTERFACE=\"CGI/1.1\" REQUEST_METHOD=\"GET\" SCRIPT_NAME=\""
        ∷ parameter
        ∷ codes "\" QUERY_STRING=\""
        ∷ query_string
        ∷ codes "\" "
        ∷ path
        ∷ [])
      []

unfoldable pub buffer_length : List ℕ → List ℕ → ℕ
unfolding environment_format
buffer_length parameter path = length path + length environment_format + length parameter + 256

-- `sizeof(buffer)`: that of a pointer.
abbrev pub pointer_size : ℕ
pointer_size = 8

-- The output of the script, in the pieces that `fread` gives, as far as the writes succeed; `writes` is
-- the number of those that do. The fuel bounds the pieces.
unfoldable pub cgi_output : ℕ → ℕ → List ℕ → List (List ℕ)
cgi_output zero writes bytes = []
cgi_output (suc fuel) zero bytes = []
cgi_output (suc fuel) (suc writes) [] = []
cgi_output (suc fuel) (suc writes) (b ∷ bytes) =
    take pointer_size (b ∷ bytes) ∷ cgi_output fuel writes (drop pointer_size (b ∷ bytes))

pub data CgiReply : Type 0 where
  failed : ℕ → CgiReply
  ran : List ℕ → List (List ℕ) → CgiReply
  overflow : CgiReply

-- `exists` says which files can be opened, and `popen` gives the output of a command that can be run.
-- `overflow` is a command that is written past the end of its buffer.
unfoldable pub execute_cgi :
    (List ℕ → Bool) → (List ℕ → Option (List ℕ)) → ℕ → List ℕ → ℕ → List ℕ → List ℕ → CgiReply
unfolding absolute_path cgi_command buffer_length cgi_output
execute_cgi exists popen writes www_folder port parameter query_string =
    let path = absolute_path www_folder parameter in
    let command = cgi_command port parameter query_string path in
    let run : CgiReply = elim (popen command) [
      | none ↦ failed 403
      | some bytes ↦ ran command (cgi_output (length bytes) writes bytes)
    ] in
    if exists path
    then (if leb (length command + 1) (buffer_length parameter path) then run else overflow)
    else failed 404
