-- ===== src/Http/Client/Password.antt =====
-- The password guards every answer.
use raspberry_car.Base.{
  ℕ, ◌≡◌, ◌≢◌, refl, sym, ap, ◌∙◌, Bool, true, false, List, [], ◌∷◌, ◌++◌, Option, none, some, drop,
  length, All, arith, inl, inr, Bool-cases, subst,
}
use raspberry_car.Base.Int.{ℤ}
use raspberry_car.CString.{codes, str_eq, str_eq-eq, c_str}
use raspberry_car.Http.Request.{
  Build, Answer, snapshot, snapshot_wxp, stream, stream_wxp, command, take_, input_json,
  output_json, program_json, clients_json, Request, Reply, send_error, Start, closed, going,
  start_pictures, start_parameter, start_as, start, input_number, kind, command_parameter, has,
  behind,
}
use raspberry_car.Http.Client.{
  Server, PluginCommand, has_case, decode_credentials, user_agent, authorization, header_line,
  goes_on, read_header, may_enter, finish, serve, client_thread,
}

abbrev pub IsError : Reply → Type 0
IsError (send_error code) = Unit {0}
IsError _ = ⊥

-- A line of the header brings the password.
abbrev pub Presents : List ℕ → List ℕ → Type 0
Presents wanted bytes =
    (has_case (c_str bytes) authorization ≡ true)
    × (decode_credentials (drop (length authorization) (c_str bytes)) ≡ some wanted)

-- Before the header is read nothing but errors is sent, and no password is known.
abbrev Closed : Start → Type 0
Closed (closed replies) = All IsError replies
Closed (going req suffixed replies) = (req.credentials ≡ none) × All IsError replies

start_parameter-Closed :
    (a : Answer) (suffixed : Bool) (p : Option (List ℕ)) → Closed (start_parameter a suffixed p)
unfolding start_parameter
start_parameter-Closed a suffixed none = (tt, tt)
start_parameter-Closed a suffixed (some p) = (refl, tt)

start_pictures-Closed :
    (build : Build) (cheater : Bool) (a : Answer) → Closed (start_pictures build cheater a)
unfolding start_pictures
start_pictures-Closed build cheater a = ground arith

start_as-Closed :
    (a : Answer) (build : Build) (cheater : Bool) (line : List ℕ)
    → Closed (start_as a build cheater line)
unfolding start_as
start_as-Closed snapshot build cheater line = start_pictures-Closed build cheater snapshot
start_as-Closed snapshot_wxp build cheater line = start_pictures-Closed build cheater snapshot_wxp
start_as-Closed stream build cheater line = start_pictures-Closed build cheater stream
start_as-Closed stream_wxp build cheater line = start_pictures-Closed build cheater stream_wxp
start_as-Closed take_ build cheater line =
    start_parameter-Closed take_ true (command_parameter (behind line (codes "GET /?action=take")))
start_as-Closed input_json build cheater line = (refl, tt)
start_as-Closed output_json build cheater line = (refl, tt)
start_as-Closed program_json build cheater line = (refl, tt)
start_as-Closed clients_json build cheater line = (refl, tt)
start_as-Closed command build cheater line =
    start_parameter-Closed command false
      (command_parameter (behind line (codes "GET /?action=command")))
start_as-Closed _ build cheater line = elim (Bool-cases (has line (codes "GET /"))) [
  | inl found ↦ rw found (refl, tt)
  | inr bad ↦ rw bad (tt, tt)
]

module _ (wanted : List ℕ) where
  header_line-credentials :
      (req : Request) (bytes : List ℕ)
      → ¬ Presents wanted bytes
      → req.credentials ≢ some wanted
      → (header_line req (c_str bytes)).credentials ≢ some wanted
  unfolding header_line
  header_line-credentials req bytes absent other =
      elim (Bool-cases (has_case (c_str bytes) user_agent)) [
        | inl agent ↦ rw agent other
        | inr no_agent ↦ elim (Bool-cases (has_case (c_str bytes) authorization)) [
          | inl auth ↦ rw (no_agent, auth) (λ h. absent (auth, h))
          | inr no_auth ↦ rw (no_agent, no_auth) other
        ]
      ]

  read_header-credentials :
      (lines : List (List ℕ)) (req req' : Request)
      → All (λ bytes. ¬ Presents wanted bytes) lines
      → req.credentials ≢ some wanted
      → read_header req lines ≡ some req'
      → req'.credentials ≢ some wanted
  unfolding read_header
  read_header-credentials [] req req' absent other h = cc
  read_header-credentials (bytes ∷ lines) req req' absent other h =
      let kept = header_line-credentials req bytes absent.0 other in
      elim (Bool-cases (goes_on bytes)) [
        | inl more ↦
            read_header-credentials lines (header_line req (c_str bytes)) req' absent.1 kept
              (rw more at h)
        | inr last ↦
            let same : header_line req (c_str bytes) ≡ req' = cc (rw last at h) in
            subst (λ (r : Request). r.credentials ≢ some wanted) same kept
      ]

  may_enter-refuses :
      (given : Option (List ℕ)) → given ≢ some wanted → may_enter (some wanted) given ≡ false
  unfolding may_enter
  may_enter-refuses none other = refl
  may_enter-refuses (some g) other = elim (Bool-cases (str_eq wanted g)) [
    | inl same ↦ absurd (other (ap some (sym (str_eq-eq wanted g same))))
    | inr differs ↦ differs
  ]

  finish-IsError :
      (s : Server) (saved : PluginCommand) (suffixed : Bool) (n : ℤ) (req : Option Request)
      → s.credentials ≡ some wanted
      → ((req' : Request) → req ≡ some req' → req'.credentials ≢ some wanted)
      → All IsError (finish s saved suffixed n req)
  unfolding finish
  finish-IsError s saved suffixed n none guarded other = tt
  finish-IsError s saved suffixed n (some req) guarded other =
      rw (guarded, may_enter-refuses req.credentials (other req refl)) (tt, tt)

All-append-IsError : (xs ys : List Reply) → All IsError xs → All IsError ys → All IsError (xs ++ ys)
All-append-IsError [] ys h k = k
All-append-IsError (x ∷ xs) ys h k = (h.0, All-append-IsError xs ys h.1 k)

serve-IsError :
    (wanted : List ℕ) (st : Start) (s : Server) (saved : PluginCommand) (line : List ℕ)
    (lines : List (List ℕ))
    → Closed st
    → s.credentials ≡ some wanted
    → All (λ bytes. ¬ Presents wanted bytes) lines
    → All IsError (serve st s saved line lines)
unfolding serve
serve-IsError wanted (closed replies) s saved line lines c guarded absent = c
serve-IsError wanted (going req suffixed replies) s saved line lines c guarded absent =
    All-append-IsError replies _ c.1 (
      finish-IsError wanted s saved suffixed (input_number suffixed req.type_ line)
        (read_header req lines) guarded
        (λ req' h.
          read_header-credentials wanted lines req req' absent (λ e. none-ne-some (sym c.0 ∙ e)) h))
  where
    none-ne-some : none ≡ some wanted → ⊥
    none-ne-some e = cc

-- On a server with a password, a client none of whose header lines presents it (as the base64 text
-- behind "Authorization: Basic ") is sent nothing but errors: no picture, file, script, command or
-- description, whatever its request is and however the build is configured.
pub client_thread-guarded :
    (build : Build) (s : Server) (saved : PluginCommand) (cheater : Bool) (first : List ℕ)
    (lines : List (List ℕ)) (wanted : List ℕ)
    → s.credentials ≡ some wanted
    → All (λ bytes. ¬ Presents wanted bytes) lines
    → All IsError (client_thread build s saved cheater (first ∷ lines))
unfolding client_thread start
client_thread-guarded build s saved cheater first lines wanted guarded absent =
    serve-IsError wanted (start build cheater (c_str first)) s saved (c_str first) lines
      (start_as-Closed (kind build (c_str first)) build cheater (c_str first)) guarded absent
