-- ===== src/Http/Client/Every.antt =====
-- A property of all replies of client_thread.
use raspberry_car.Base.{
  ℕ, Bool, true, false, ◌&&◌, List, [], ◌∷◌, ◌++◌, Option, none, some, inl, inr, All, Bool-cases,
}
use raspberry_car.Base.Int.{ℤ}
use raspberry_car.CString.{c_str, codes}
use raspberry_car.Http.Request.{
  Build, Answer, snapshot, snapshot_wxp, stream, stream_wxp, command, take_, input_json,
  output_json, program_json, clients_json, Request, Reply, send_error, Start, closed, going,
  start_pictures, start_parameter, start_as, start, input_number, kind, command_parameter, behind,
  has,
}
use raspberry_car.Http.Client.{
  Server, PluginCommand, read_header, answer, dispatch, finish, serve, client_thread, may_enter,
  out_of_range,
}

-- What every reply satisfies, when every error and every answer does.
module _ (s : Server) (saved : PluginCommand) (Good : Reply → Type 0)
    (error : (n : ℕ) → Good (send_error n))
    (good : (a : Answer) (req : Request) (n : ℤ) → All Good (answer a s saved req n)) where
  dispatch-All :
      (suffixed : Bool) (req : Request) (n : ℤ) → All Good (dispatch s saved suffixed req n)
  unfolding dispatch
  dispatch-All suffixed req n = elim (Bool-cases (suffixed && out_of_range s req.type_ n)) [
    | inl out ↦ rw out (error 404, tt)
    | inr inside ↦ rw inside (good req.type_ req n)
  ]

  finish-All :
      (suffixed : Bool) (n : ℤ) (req : Option Request) → All Good (finish s saved suffixed n req)
  unfolding finish
  finish-All suffixed n none = tt
  finish-All suffixed n (some req) = elim (Bool-cases (may_enter s.credentials req.credentials)) [
    | inl granted ↦ rw granted (dispatch-All suffixed req n)
    | inr denied ↦ rw denied (error 401, tt)
  ]

  abbrev AllErrors : Start → Type 0
  AllErrors (closed replies) = All Good replies
  AllErrors (going req suffixed replies) = All Good replies

  start_parameter-All :
      (a : Answer) (suffixed : Bool) (p : Option (List ℕ))
      → AllErrors (start_parameter a suffixed p)
  unfolding start_parameter
  start_parameter-All a suffixed none = (error 500, tt)
  start_parameter-All a suffixed (some p) = tt

  start_pictures-All :
      (build : Build) (cheater : Bool) (a : Answer) → AllErrors (start_pictures build cheater a)
  unfolding start_pictures
  start_pictures-All build cheater a = elim (Bool-cases (build.managment && cheater)) [
    | inl again ↦ rw again (error 403, tt)
    | inr fresh ↦ rw fresh tt
  ]

  start_as-All :
      (a : Answer) (build : Build) (cheater : Bool) (line : List ℕ)
      → AllErrors (start_as a build cheater line)
  unfolding start_as
  start_as-All snapshot build cheater line = start_pictures-All build cheater snapshot
  start_as-All snapshot_wxp build cheater line = start_pictures-All build cheater snapshot_wxp
  start_as-All stream build cheater line = start_pictures-All build cheater stream
  start_as-All stream_wxp build cheater line = start_pictures-All build cheater stream_wxp
  start_as-All take_ build cheater line =
      start_parameter-All take_ true (command_parameter (behind line (codes "GET /?action=take")))
  start_as-All command build cheater line =
      start_parameter-All command false
        (command_parameter (behind line (codes "GET /?action=command")))
  start_as-All input_json build cheater line = tt
  start_as-All output_json build cheater line = tt
  start_as-All program_json build cheater line = tt
  start_as-All clients_json build cheater line = tt
  start_as-All _ build cheater line = elim (Bool-cases (has line (codes "GET /"))) [
    | inl found ↦ rw found tt
    | inr bad ↦ rw bad (error 400, tt)
  ]

  All-append-Good : (xs ys : List Reply) → All Good xs → All Good ys → All Good (xs ++ ys)
  All-append-Good [] ys h k = k
  All-append-Good (x ∷ xs) ys h k = (h.0, All-append-Good xs ys h.1 k)

  serve-All :
      (st : Start) (line : List ℕ) (lines : List (List ℕ))
      → AllErrors st
      → All Good (serve st s saved line lines)
  unfolding serve
  serve-All (closed replies) line lines h = h
  serve-All (going req suffixed replies) line lines h =
      All-append-Good replies _ h
        (finish-All suffixed (input_number suffixed req.type_ line) (read_header req lines))

  pub client_thread-All :
      (build : Build) (cheater : Bool) (lines : List (List ℕ))
      → All Good (client_thread build s saved cheater lines)
  unfolding client_thread start
  client_thread-All build cheater [] = tt
  client_thread-All build cheater (first ∷ lines) =
      serve-All (start build cheater (c_str first)) (c_str first) lines
        (start_as-All (kind build (c_str first)) build cheater (c_str first))
