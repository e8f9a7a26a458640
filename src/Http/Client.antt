-- ===== src/Http/Client.antt =====
-- client_thread behind the first line: the header, the check of the password, and the answer.
pub mod Password
pub mod Plugins
pub mod Limits
pub mod Every
pub mod Commands
pub mod Names
use raspberry_car.Base.{
  ℕ, zero, suc, ◌+◌, ◌-◌, Bool, true, false, not, ◌&&◌, ◌||◌, List, [], ◌∷◌, ◌++◌, map, Option,
  none, some, leb, ltb, ◌==◌, if◌then◌else◌, take, drop, length, get_or,
}
use raspberry_car.Base.Int.{ℤ, pos, ltb_ℤ}
use raspberry_car.CString.{codes, strstr, strchr, str_eq, c_str}
use raspberry_car.Http.Base64.{decode_base64}
use raspberry_car.Http.Request.{
  Build, Answer, unknown, snapshot, snapshot_wxp, stream, stream_wxp, command, file, cgi, take_,
  input_json, output_json, program_json, clients_json, Request, Reply, send_error, send_snapshot,
  send_stream, send_stream_wxp, run_command, send_input_json, send_output_json, send_program_json,
  send_clients_json, send_file, execute_cgi, take_command, has, behind, Start, closed, going, start,
  input_number,
}

-- What the thread reads of the globals and of its server's configuration. `outputs` holds the names
-- of the output plugins.
pub record Server : Type 0 where
  pub incnt : ℕ
  pub outputs : List (Option (List ℕ))
  pub credentials : Option (List ℕ)
  pub www_folder : Option (List ℕ)
  pub nocommands : Bool

unfoldable pub to_lower : ℕ → ℕ
to_lower c = if leb b'A' c && leb c b'Z' then c + 32 else c

-- `strcasestr(text, pattern) != NULL`
unfoldable pub has_case : List ℕ → List ℕ → Bool
unfolding to_lower has
has_case text pattern = has (map to_lower text) (map to_lower pattern)

-- `strdup` and `decodeBase64`. (It never leaves the buffer.)
unfoldable pub decode_credentials : List ℕ → Option (List ℕ)
unfolding decode_base64 c_str
decode_credentials text = elim (decode_base64 (text ++ 0 ∷ [])) [
  | none ↦ none
  | some mem ↦ some (c_str mem)
]

abbrev pub user_agent : List ℕ
user_agent = codes "User-Agent: "

abbrev pub authorization : List ℕ
authorization = codes "Authorization: Basic "

unfoldable pub header_line : Request → List ℕ → Request
unfolding has_case decode_credentials
header_line req line =
    if has_case line user_agent
    then record req { client = some (drop (length user_agent) line) }
    else if has_case line authorization
    then record req { credentials = decode_credentials (drop (length authorization) line) }
    else req

-- `cnt > 2 && !(buffer[0] == '\r' && buffer[1] == '\n')`; `cnt` is the number of bytes of the line,
-- which may hold a NUL.
unfoldable pub goes_on : List ℕ → Bool
goes_on bytes = ltb 2 (length bytes) && not (get_or bytes 0 0 == 13 && get_or bytes 1 0 == 10)

-- The loop over the header. The list holds what the calls of `_readline` give, one after the other;
-- at its end `_readline` fails.
unfoldable pub read_header : Request → List (List ℕ) → Option Request
unfolding header_line goes_on c_str
read_header req [] = none
read_header req (bytes ∷ lines) =
    let req' = header_line req (c_str bytes) in
    let rest = read_header req' lines in if goes_on bytes then rest else some req'

-- The check of user name and password.
unfoldable pub may_enter : Option (List ℕ) → Option (List ℕ) → Bool
unfolding str_eq
may_enter none given = true
may_enter (some wanted) none = false
may_enter (some wanted) (some given) = str_eq wanted given

-- The plugin number is out of range.
unfoldable pub out_of_range : Server → Answer → ℤ → Bool
out_of_range s output_json n = not (ltb_ℤ n (pos (length s.outputs)))
out_of_range s _ n = not (ltb_ℤ n (pos s.incnt))

-- The file name of a take command: up to the next `&`.
unfoldable pub take_filename : List ℕ → Option (List ℕ)
unfolding strstr strchr
take_filename parameter = elim (strstr parameter (codes "filename=")) [
  | none ↦ none
  | some rest ↦
      let name = drop 9 rest in
      elim (strchr name b'&') [
        | none ↦ some name
        | some tail ↦ some (take (length name - length tail) name)
      ]
]

-- The first output plugin that saves to files.
unfoldable pub file_plugin : ℕ → List (Option (List ℕ)) → Option ℕ
unfolding has
file_plugin i [] = none
file_plugin i (none ∷ names) = file_plugin (i + 1) names
file_plugin i (some name ∷ names) =
    let later = file_plugin (i + 1) names in
    if has name (codes "FILE output plugin") then some i else later

-- What the plugin's command returns, 0 or not.
abbrev pub PluginCommand : Type 0
PluginCommand = ℕ → List ℕ → Bool

-- `case A_TAKE`. A request of this type has a parameter.
unfoldable pub answer_take : Server → PluginCommand → List ℕ → ℤ → List Reply
unfolding take_filename file_plugin
answer_take s saved parameter n = elim (file_plugin 0 s.outputs) [
  | none ↦ send_error 404 ∷ []
  | some i ↦ elim (take_filename parameter) [
    | none ↦ send_error 404 ∷ send_snapshot n ∷ []
    | some name ↦
        take_command i name ∷ (if saved i name then send_snapshot n else send_error 404) ∷ []
  ]
]

-- The `switch`.
unfoldable pub answer : Answer → Server → PluginCommand → Request → ℤ → List Reply
unfolding answer_take
answer snapshot_wxp s saved req n = send_snapshot n ∷ []
answer snapshot s saved req n = send_snapshot n ∷ []
answer stream s saved req n = send_stream n ∷ []
answer stream_wxp s saved req n = send_stream_wxp n ∷ []
answer command s saved req n =
    if s.nocommands then send_error 501 ∷ [] else run_command req.parameter ∷ []
answer input_json s saved req n = send_input_json n ∷ []
answer output_json s saved req n = send_output_json n ∷ []
answer program_json s saved req n = send_program_json ∷ []
answer clients_json s saved req n = send_clients_json ∷ []
answer file s saved req n = elim s.www_folder [
  | none ↦ send_error 501 ∷ []
  | some _ ↦ send_file req.parameter ∷ []
]
answer take_ s saved req n = elim req.parameter [ none ↦ [] | some p ↦ answer_take s saved p n ]
answer cgi s saved req n = execute_cgi req.parameter req.query_string ∷ []
answer unknown s saved req n = []

-- The check of the plugin number, and the answer.
unfoldable pub dispatch : Server → PluginCommand → Bool → Request → ℤ → List Reply
unfolding out_of_range answer
dispatch s saved suffixed req n =
    if suffixed && out_of_range s req.type_ n
    then send_error 404 ∷ []
    else answer req.type_ s saved req n

-- Behind the header.
unfoldable pub finish : Server → PluginCommand → Bool → ℤ → Option Request → List Reply
unfolding may_enter dispatch
finish s saved suffixed n none = []
finish s saved suffixed n (some req) =
    if may_enter s.credentials req.credentials
    then dispatch s saved suffixed req n
    else send_error 401 ∷ []

unfoldable pub serve : Start → Server → PluginCommand → List ℕ → List (List ℕ) → List Reply
unfolding read_header finish input_number
serve (closed replies) s saved line lines = replies
serve (going req suffixed replies) s saved line lines =
    replies
    ++ finish s saved suffixed (input_number suffixed req.type_ line) (read_header req lines)

-- `client_thread`: the replies to a client, in order. The list holds what the calls of `_readline`
-- give, and `cheater` is what `check_client_status` says.
unfoldable pub client_thread : Build → Server → PluginCommand → Bool → List (List ℕ) → List Reply
unfolding serve start c_str
client_thread build s saved cheater [] = []
client_thread build s saved cheater (first ∷ lines) =
    serve (start build cheater (c_str first)) s saved (c_str first) lines
