-- ===== src/Http/Client/Names.antt =====
-- The names of files and scripts that a request can reach.
pub mod Thread
use raspberry_car.Base.{
  ℕ, zero, suc, ◌≡◌, refl, sym, ap, ◌∙◌, subst, Bool, true, false, ◌&&◌, List, [], ◌∷◌, ◌++◌,
  Option, none, some, ◌⊎◌, inl, inr, ◌==◌, ◌≤◌, if◌then◌else◌, take, drop, length, All, Bool-cases,
  Option-cases, arith,
}
use raspberry_car.Base.Int.{ℤ}
use raspberry_car.CString.{codes, c_str, span, strchr}
use raspberry_car.Http.Request.{
  Build, Answer, unknown, snapshot, snapshot_wxp, stream, stream_wxp, command, file, cgi, take_,
  input_json, output_json, program_json, clients_json, Request, Reply, send_error, send_file,
  execute_cgi, Start, closed, going, start_pictures, start_parameter, start_as, start, input_number,
  kind, command_parameter, has, behind, is_file_char, is_query_char, file_request,
}
use raspberry_car.Http.Client.{
  Server, PluginCommand, header_line, read_header, answer_take, answer, dispatch, finish, serve,
  client_thread, may_enter, out_of_range, has_case, goes_on, user_agent, authorization, file_plugin,
  take_filename,
}

-- A name of letters, digits, dots, underscores and dashes, of at most 100 characters.
abbrev pub IsName : List ℕ → Type 0
IsName text = All (λ c. is_file_char c ≡ true) text × (length text ≤ 100)

-- A query of the characters of names, `=` and `&`, or the space that stands for a missing one.
abbrev pub IsQuery : List ℕ → Type 0
IsQuery text = All (λ c. (is_query_char c ≡ true) ⊎ (c ≡ 32)) text

-- A reply with a file or a script names one.
abbrev pub Named : Reply → Type 0
Named (send_file (some name)) = IsName name
Named (send_file none) = ⊥
Named (execute_cgi (some name) (some query)) = IsName name × IsQuery query
Named (execute_cgi _ _) = ⊥
Named _ = Unit {0}

-- The same of the request that leads to the reply.
abbrev pub Asks : Answer → Option (List ℕ) → Option (List ℕ) → Type 0
Asks file parameter query = Named (send_file parameter)
Asks cgi parameter query = Named (execute_cgi parameter query)
Asks _ parameter query = Unit {0}

abbrev pub AsksFor : Request → Type 0
AsksFor req = Asks req.type_ req.parameter req.query_string

span-All : (accept : ℕ → Bool) (text : List ℕ) → All (λ c. accept c ≡ true) (span accept text)
unfolding span
span-All accept [] = tt
span-All accept (c ∷ text) = elim (Bool-cases (accept c)) [
  | inl taken ↦ rw taken (taken, span-All accept text)
  | inr left ↦ rw left tt
]

take-All : (P : ℕ → Type 0) (n : ℕ) (text : List ℕ) → All P text → All P (take n text)
take-All P zero text h = tt
take-All P (suc n) [] h = tt
take-All P (suc n) (c ∷ text) h = (h.0, take-All P n text h.1)

length-take_le : (n : ℕ) (text : List ℕ) → length (take n text) ≤ n
length-take_le zero text = omega arith
length-take_le (suc n) [] = omega arith
length-take_le (suc n) (c ∷ text) = omega (arith, length-take_le n text)

span-IsName : (text : List ℕ) → IsName (take 100 (span is_file_char text))
span-IsName text = (
  take-All (λ c. is_file_char c ≡ true) 100 (span is_file_char text) (span-All is_file_char text),
  length-take_le 100 (span is_file_char text),
)

All-inl : (text : List ℕ) → All (λ c. is_query_char c ≡ true) text → IsQuery text
All-inl [] h = tt
All-inl (c ∷ text) h = (inl h.0, All-inl text h.1)

abbrev query_of : Option (List ℕ) → List ℕ
query_of mark = elim mark [ none ↦ codes " " | some q ↦ span is_query_char (drop 1 q) ]

query_of-IsQuery : (mark : Option (List ℕ)) → IsQuery (query_of mark)
query_of-IsQuery none = (inr refl, tt)
query_of-IsQuery (some q) =
    All-inl (span is_query_char (drop 1 q)) (span-All is_query_char (drop 1 q))

asks :
    (script : Bool) (name query : List ℕ)
    → IsName name
    → IsQuery query
    → Asks (if script then cgi else file) (some name) (if script then some query else none)
asks true name query h k = (h, k)
asks false name query h k = h

file_request-AsksFor : (rest : List ℕ) → AsksFor (file_request rest)
file_request-AsksFor rest =
    asks (has rest (codes ".cgi")) (take 100 (span is_file_char rest)) (query_of (strchr rest b'?'))
      (span-IsName rest) (query_of-IsQuery (strchr rest b'?'))

-- What the first line leads to.
abbrev pub Starts : Start → Type 0
Starts (closed replies) = All Named replies
Starts (going req suffixed replies) = AsksFor req × All Named replies

start_parameter-Starts :
    (a : Answer) (suffixed : Bool) (p : Option (List ℕ))
    → ((q : Option (List ℕ)) → Asks a q none)
    → Starts (start_parameter a suffixed p)
unfolding start_parameter
start_parameter-Starts a suffixed none h = (tt, tt)
start_parameter-Starts a suffixed (some p) h = (h (some p), tt)

start_pictures-Starts :
    (build : Build) (cheater : Bool) (a : Answer)
    → Asks a none none
    → Starts (start_pictures build cheater a)
unfolding start_pictures
start_pictures-Starts build cheater a h = elim (Bool-cases (build.managment && cheater)) [
  | inl again ↦ rw again (tt, (tt, tt))
  | inr fresh ↦ rw fresh (h, tt)
]

pub start_as-Starts :
    (a : Answer) (build : Build) (cheater : Bool) (line : List ℕ)
    → Starts (start_as a build cheater line)
unfolding start_as
start_as-Starts snapshot build cheater line = start_pictures-Starts build cheater snapshot tt
start_as-Starts snapshot_wxp build cheater line =
    start_pictures-Starts build cheater snapshot_wxp tt
start_as-Starts stream build cheater line = start_pictures-Starts build cheater stream tt
start_as-Starts stream_wxp build cheater line = start_pictures-Starts build cheater stream_wxp tt
start_as-Starts take_ build cheater line =
    start_parameter-Starts take_ true (command_parameter (behind line (codes "GET /?action=take")))
      (λ q. tt)
start_as-Starts command build cheater line =
    start_parameter-Starts command false
      (command_parameter (behind line (codes "GET /?action=command"))) (λ q. tt)
start_as-Starts input_json build cheater line = (tt, tt)
start_as-Starts output_json build cheater line = (tt, tt)
start_as-Starts program_json build cheater line = (tt, tt)
start_as-Starts clients_json build cheater line = (tt, tt)
start_as-Starts _ build cheater line = elim (Bool-cases (has line (codes "GET /"))) [
  | inl found ↦ rw found (file_request-AsksFor (behind line (codes "GET /")), tt)
  | inr bad ↦ rw bad (tt, tt)
]
