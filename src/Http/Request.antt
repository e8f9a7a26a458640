-- ===== src/Http/Request.antt =====
-- The first line of a request: what client_thread reads out of it.
use raspberry_car.Base.{
  ℕ, ◌-◌, Bool, true, false, ◌&&◌, ◌||◌, List, [], ◌∷◌, ◌++◌, Option, none, some, ◌==◌,
  if◌then◌else◌, take, drop, length,
}
use raspberry_car.Base.Int.{ℤ, pos, sub_ℕ}
use raspberry_car.CString.{codes, strstr, strchr, span, is_digit, is_letter, c_str}
use raspberry_car.Http.Unescape.{fault, failed, done, unescape}

-- The options of the build: `MANAGMENT` and `WXP_COMPAT`.
pub record Build : Type 0 where
  pub managment : Bool
  pub wxp_compat : Bool

-- `answer_t`
pub data Answer : Type 0 where
  unknown snapshot snapshot_wxp stream stream_wxp command file cgi take_ : Answer
  input_json output_json program_json clients_json : Answer

pub record Request : Type 0 where
  pub type_ : Answer
  pub parameter : Option (List ℕ)
  pub client : Option (List ℕ)
  pub credentials : Option (List ℕ)
  pub query_string : Option (List ℕ)

-- What the thread does for its client. Numbers of plugins are an `int` of the source.
pub data Reply : Type 0 where
  send_error : ℕ → Reply
  send_snapshot : ℤ → Reply
  send_stream : ℤ → Reply
  send_stream_wxp : ℤ → Reply
  run_command : Option (List ℕ) → Reply
  send_input_json : ℤ → Reply
  send_output_json : ℤ → Reply
  send_program_json : Reply
  send_clients_json : Reply
  send_file : Option (List ℕ) → Reply
  execute_cgi : Option (List ℕ) → Option (List ℕ) → Reply
  take_command : ℕ → List ℕ → Reply

-- `strstr(buffer, pattern) != NULL`
unfoldable pub has : List ℕ → List ℕ → Bool
unfolding strstr
has line pattern = elim (strstr line pattern) [ none ↦ false | some _ ↦ true ]

-- The branch of the ladder that a line takes. (The two streams share one.)
unfoldable pub kind : Build → List ℕ → Answer
kind build line =
    if has line (codes "GET /?action=snapshot")
    then snapshot
    else if build.wxp_compat && (has line (codes "GET /cam") && has line (codes ".jpg"))
    then snapshot_wxp
    else if has line (codes "POST /stream") || has line (codes "GET /?action=stream")
    then stream
    else if build.wxp_compat && (has line (codes "GET /cam") && has line (codes ".mjpg"))
    then stream_wxp
    else if has line (codes "GET /?action=take")
    then take_
    else if has line (codes "GET /input") && has line (codes ".json")
    then input_json
    else if has line (codes "GET /output") && has line (codes ".json")
    then output_json
    else if has line (codes "GET /program.json")
    then program_json
    else if build.managment && has line (codes "GET /clients.json")
    then clients_json
    else if has line (codes "GET /?action=command")
    then command
    else file

-- What stands behind the first occurrence of a known string.
unfoldable pub behind : List ℕ → List ℕ → List ℕ
unfolding strstr
behind line pattern = elim (strstr line pattern) [
  | none ↦ []
  | some rest ↦ drop (length pattern) rest
]

unfoldable pub is_command_char : ℕ → Bool
unfolding is_letter is_digit
is_command_char c =
    is_letter c
    || is_digit c
    || c == b'_'
    || c == b'-'
    || c == b'='
    || c == b'&'
    || c == b'%'
    || c == b'.'
    || c == b'/'

unfoldable pub is_file_char : ℕ → Bool
unfolding is_letter is_digit
is_file_char c = is_letter c || is_digit c || c == b'.' || c == b'_' || c == b'-'

unfoldable pub is_query_char : ℕ → Bool
unfolding is_file_char
is_query_char c = is_file_char c || c == b'=' || c == b'&'

-- At most 100 accepted characters, in a buffer of their own, with %XX replaced; `none` is the -1 of
-- `unescape`. (It never leaves the buffer.)
unfoldable pub command_parameter : List ℕ → Option (List ℕ)
unfolding span is_command_char unescape c_str
command_parameter rest = elim (unescape (take 100 (span is_command_char rest) ++ 0 ∷ [])) [
  | fault ↦ none
  | failed ↦ none
  | done mem ↦ some (c_str mem)
]

-- The file name, and, for a CGI script, its query string.
abbrev pub file_request : List ℕ → Request
file_request rest =
    let name = take 100 (span is_file_char rest) in
    let query : List ℕ = elim (strchr rest b'?') [
      | none ↦ codes " "
      | some q ↦ span is_query_char (drop 1 q)
    ] in
    let script = has rest (codes ".cgi") in
    record {
      type_ = if script then cgi else file;
      parameter = some name;
      client = none;
      credentials = none;
      query_string = if script then some query else none;
    }

-- Where the thread stands behind the first line: it has closed the connection, or goes on to the
-- header with `suffixed` for `query_suffixed`; either way after some replies.
pub data Start : Type 0 where
  closed : List Reply → Start
  going : Request → Bool → List Reply → Start

abbrev plain : Answer → Request
plain a = record {
  type_ = a;
  parameter = none;
  client = none;
  credentials = none;
  query_string = none;
}

-- A request for pictures; `cheater` is what `check_client_status` says.
unfoldable pub start_pictures : Build → Bool → Answer → Start
start_pictures build cheater a =
    if build.managment && cheater
    then going (plain unknown) false (send_error 403 ∷ [])
    else going (plain a) true []

unfoldable pub start_parameter : Answer → Bool → Option (List ℕ) → Start
start_parameter a suffixed none = closed (send_error 500 ∷ [])
start_parameter a suffixed (some p) = going (record (plain a) { parameter = some p }) suffixed []

unfoldable pub start_as : Answer → Build → Bool → List ℕ → Start
unfolding start_pictures start_parameter behind has
start_as snapshot build cheater line = start_pictures build cheater snapshot
start_as snapshot_wxp build cheater line = start_pictures build cheater snapshot_wxp
start_as stream build cheater line = start_pictures build cheater stream
start_as stream_wxp build cheater line = start_pictures build cheater stream_wxp
start_as take_ build cheater line =
    start_parameter take_ true (command_parameter (behind line (codes "GET /?action=take")))
start_as input_json build cheater line = going (plain input_json) true []
start_as output_json build cheater line = going (plain output_json) true []
start_as program_json build cheater line = going (plain program_json) false []
start_as clients_json build cheater line = going (plain clients_json) false []
start_as command build cheater line =
    start_parameter command false (command_parameter (behind line (codes "GET /?action=command")))
start_as _ build cheater line =
    if has line (codes "GET /")
    then going (file_request (behind line (codes "GET /"))) false []
    else closed (send_error 400 ∷ [])

unfoldable pub start : Build → Bool → List ℕ → Start
unfolding start_as kind
start build cheater line = start_as (kind build line) build cheater line

-- `atoi` of the character behind the first underscore.
unfoldable pub suffix_number : List ℕ → ℕ
unfolding strchr is_digit
suffix_number line = elim (strchr line b'_') [
  | none ↦ 0
  | some rest ↦ elim (drop 1 rest) [ [] ↦ 0 | c ∷ _ ↦ if is_digit c then c - b'0' else 0 ]
]

-- WebcamXP counts its cameras from 1.
unfoldable pub wxp_offset : Answer → ℕ → ℤ
wxp_offset snapshot_wxp n = sub_ℕ n 1
wxp_offset stream_wxp n = sub_ℕ n 1
wxp_offset _ n = pos n

-- `input_number`. Without an underscore there is no offset either.
unfoldable pub input_number : Bool → Answer → List ℕ → ℤ
unfolding suffix_number strchr wxp_offset
input_number suffixed a line =
    if suffixed
    then elim (strchr line b'_') [ none ↦ pos 0 | some _ ↦ wxp_offset a (suffix_number line) ]
    else pos 0
