-- ===== src/Http/Client/Names/Thread.antt =====
-- The names of files and scripts, for a whole request.
use raspberry_car.Base.{
  ℕ, ◌≡◌, refl, subst, Bool, ◌&&◌, List, [], ◌∷◌, ◌++◌, Option, none, some, inl, inr, All,
  Bool-cases, Option-cases,
}
use raspberry_car.Base.Int.{ℤ}
use raspberry_car.CString.{c_str}
use raspberry_car.Http.Request.{
  Build, Answer, unknown, command, file, cgi, take_, Request, Reply, Start, closed, going, start,
  input_number, kind,
}
use raspberry_car.Http.Client.{
  Server, PluginCommand, header_line, read_header, answer_take, answer, dispatch, finish, serve,
  client_thread, may_enter, out_of_range, has_case, goes_on, user_agent, authorization, file_plugin,
  take_filename,
}
use raspberry_car.Http.Client.Names.{Named, Asks, AsksFor, Starts, start_as-Starts}

header_line-AsksFor : (req : Request) (line : List ℕ) → AsksFor req → AsksFor (header_line req line)
unfolding header_line
header_line-AsksFor req line h = elim (Bool-cases (has_case line user_agent)) [
  | inl agent ↦ rw agent h
  | inr no_agent ↦ elim (Bool-cases (has_case line authorization)) [
    | inl auth ↦ rw (no_agent, auth) h
    | inr no_auth ↦ rw (no_agent, no_auth) h
  ]
]

read_header-AsksFor :
    (lines : List (List ℕ)) (req req' : Request)
    → AsksFor req
    → read_header req lines ≡ some req'
    → AsksFor req'
unfolding read_header
read_header-AsksFor [] req req' a h = cc
read_header-AsksFor (bytes ∷ lines) req req' a h =
    let kept = header_line-AsksFor req (c_str bytes) a in
    elim (Bool-cases (goes_on bytes)) [
      | inl more ↦
          read_header-AsksFor lines (header_line req (c_str bytes)) req' kept (rw more at h)
      | inr last ↦
          let same : header_line req (c_str bytes) ≡ req' = cc (rw last at h) in
          subst (λ (r : Request). AsksFor r) same kept
    ]

module _ (s : Server) (saved : PluginCommand) where
  answer_take-Named : (p : List ℕ) (n : ℤ) → All Named (answer_take s saved p n)
  unfolding answer_take
  answer_take-Named p n = elim (Option-cases (file_plugin 0 s.outputs)) [
    | inl missing ↦ rw (All, missing) (tt, tt)
    | inr (i, found) ↦ elim (Option-cases (take_filename p)) [
      | inl unnamed ↦ rw (All, found, unnamed) (tt, (tt, tt))
      | inr (name, named) ↦
          rw (All, found, named)
            (elim (Bool-cases (saved i name)) [
              | inl kept ↦ rw kept (tt, (tt, tt))
              | inr lost ↦ rw lost (tt, (tt, tt))
            ])
    ]
  ]

  answer-Named :
      (a : Answer) (req : Request) (n : ℤ)
      → Asks a req.parameter req.query_string
      → All Named (answer a s saved req n)
  unfolding answer
  answer-Named command req n h = elim (Bool-cases s.nocommands) [
    | inl refused ↦ rw refused (tt, tt)
    | inr allowed ↦ rw allowed (tt, tt)
  ]
  answer-Named take_ req n h = elim (Option-cases req.parameter) [
    | inl missing ↦ rw missing tt
    | inr (p, found) ↦ rw found (answer_take-Named p n)
  ]
  answer-Named file req n h = elim (Option-cases s.www_folder) [
    | inl missing ↦ rw missing (tt, tt)
    | inr (folder, found) ↦ rw found (h, tt)
  ]
  answer-Named cgi req n h = (h, tt)
  answer-Named unknown req n h = tt
  answer-Named _ req n h = (tt, tt)

  dispatch-Named :
      (suffixed : Bool) (req : Request) (n : ℤ)
      → AsksFor req
      → All Named (dispatch s saved suffixed req n)
  unfolding dispatch
  dispatch-Named suffixed req n h = elim (Bool-cases (suffixed && out_of_range s req.type_ n)) [
    | inl out ↦ rw out (tt, tt)
    | inr inside ↦ rw inside (answer-Named req.type_ req n h)
  ]

  finish-Named :
      (suffixed : Bool) (n : ℤ) (req : Option Request)
      → ((req' : Request) → req ≡ some req' → AsksFor req')
      → All Named (finish s saved suffixed n req)
  unfolding finish
  finish-Named suffixed n none h = tt
  finish-Named suffixed n (some req) h =
      elim (Bool-cases (may_enter s.credentials req.credentials)) [
        | inl granted ↦ rw granted (dispatch-Named suffixed req n (h req refl))
        | inr denied ↦ rw denied (tt, tt)
      ]

  All-append-Named : (xs ys : List Reply) → All Named xs → All Named ys → All Named (xs ++ ys)
  All-append-Named [] ys h k = k
  All-append-Named (x ∷ xs) ys h k = (h.0, All-append-Named xs ys h.1 k)

  serve-Named :
      (st : Start) (line : List ℕ) (lines : List (List ℕ))
      → Starts st
      → All Named (serve st s saved line lines)
  unfolding serve
  serve-Named (closed replies) line lines h = h
  serve-Named (going req suffixed replies) line lines h = All-append-Named replies _ h.1 (
      finish-Named suffixed (input_number suffixed req.type_ line) (read_header req lines)
        (λ req' e. read_header-AsksFor lines req req' h.0 e))

-- Whatever bytes a client sends: the name of a file that it is sent, or of a script that is run for
-- it, has letters, digits, dots, underscores and dashes only, and at most 100 characters. So it has
-- no slash, and the path that it leads to is one directly in the folder, or the folder itself or the
-- one above it (`.` and `..`). The query that the script gets has no characters but these, `=` and
-- `&`, or is the space that stands for a missing one, so no quote gets into the command that the
-- shell runs. Of the file that a request for a picture to be taken names, nothing is said.
pub client_thread-Named :
    (build : Build) (s : Server) (saved : PluginCommand) (cheater : Bool) (lines : List (List ℕ))
    → All Named (client_thread build s saved cheater lines)
unfolding client_thread start
client_thread-Named build s saved cheater [] = tt
client_thread-Named build s saved cheater (first ∷ lines) =
    serve-Named s saved (start build cheater (c_str first)) (c_str first) lines
      (start_as-Starts (kind build (c_str first)) build cheater (c_str first))
