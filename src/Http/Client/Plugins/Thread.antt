-- ===== src/Http/Client/Plugins/Thread.antt =====
-- The plugin numbers of a whole request.
use raspberry_car.Base.{
  ℕ, ◌≡◌, refl, Bool, true, false, not, ◌&&◌, List, [], ◌∷◌, ◌++◌, Option, none, some, inl, inr,
  All, arith, Bool-cases, Option-cases,
}
use raspberry_car.Base.Int.{ℤ, pos}
use raspberry_car.CString.{codes, c_str, strchr}
use raspberry_car.Http.Request.{
  Build, Answer, snapshot, snapshot_wxp, stream, stream_wxp, command, take_, input_json,
  output_json, program_json, clients_json, Request, Reply, Start, closed, going, start_pictures,
  start_parameter, start_as, start, input_number, wxp_offset, suffix_number, kind,
  command_parameter, has, behind,
}
use raspberry_car.Http.Client.{
  Server, PluginCommand, read_header, finish, serve, client_thread, may_enter,
}
use raspberry_car.Http.Client.Plugins.{Loaded, Numbered, Natural, dispatch-Loaded}
use raspberry_car.Http.Client.Plugins.Header.{read_header-type_}

-- The answer types of a build without WebcamXP.
abbrev IsPlain : Answer → Type 0
IsPlain snapshot_wxp = ⊥
IsPlain stream_wxp = ⊥
IsPlain _ = Unit {0}

-- What the first line leads to: errors, and a request whose number is checked where it counts.
abbrev Prepared : Bool → (s : Server) → Start → Type 0
Prepared low s (closed replies) = All (Loaded low s) replies
Prepared low s (going req suffixed replies) =
    Numbered suffixed req.type_ × (low ≡ true → IsPlain req.type_) × All (Loaded low s) replies

start_parameter-Prepared :
    (low : Bool) (s : Server) (a : Answer) (suffixed : Bool) (p : Option (List ℕ))
    → Numbered suffixed a
    → IsPlain a
    → Prepared low s (start_parameter a suffixed p)
unfolding start_parameter
start_parameter-Prepared low s a suffixed none h k = (tt, tt)
start_parameter-Prepared low s a suffixed (some p) h k = (h, (λ _. k), tt)

start_pictures-Prepared :
    (low : Bool) (s : Server) (build : Build) (cheater : Bool) (a : Answer)
    → (low ≡ true → IsPlain a)
    → Prepared low s (start_pictures build cheater a)
unfolding start_pictures
start_pictures-Prepared low s build cheater a k = elim (Bool-cases (build.managment && cheater)) [
  | inl again ↦ rw again (tt, (λ _. tt), (tt, tt))
  | inr fresh ↦ rw fresh (tt, k, tt)
]

start_as-Prepared :
    (low : Bool) (s : Server) (a : Answer) (build : Build) (cheater : Bool) (line : List ℕ)
    → (low ≡ true → IsPlain a)
    → Prepared low s (start_as a build cheater line)
unfolding start_as
start_as-Prepared low s snapshot build cheater line k =
    start_pictures-Prepared low s build cheater snapshot k
start_as-Prepared low s snapshot_wxp build cheater line k =
    start_pictures-Prepared low s build cheater snapshot_wxp k
start_as-Prepared low s stream build cheater line k =
    start_pictures-Prepared low s build cheater stream k
start_as-Prepared low s stream_wxp build cheater line k =
    start_pictures-Prepared low s build cheater stream_wxp k
start_as-Prepared low s take_ build cheater line k =
    start_parameter-Prepared low s take_ true
      (command_parameter (behind line (codes "GET /?action=take"))) tt tt
start_as-Prepared low s input_json build cheater line k = (tt, (λ _. tt), tt)
start_as-Prepared low s output_json build cheater line k = (tt, (λ _. tt), tt)
start_as-Prepared low s program_json build cheater line k = (tt, (λ _. tt), tt)
start_as-Prepared low s clients_json build cheater line k = (tt, (λ _. tt), tt)
start_as-Prepared low s command build cheater line k =
    start_parameter-Prepared low s command false
      (command_parameter (behind line (codes "GET /?action=command"))) tt tt
start_as-Prepared low s _ build cheater line k = elim (Bool-cases (has line (codes "GET /"))) [
  | inl found ↦ rw found (elim (Bool-cases (has (behind line (codes "GET /")) (codes ".cgi"))) [
    | inl script ↦ rw script (tt, (λ _. tt), tt)
    | inr plain ↦ rw plain (tt, (λ _. tt), tt)
  ])
  | inr bad ↦ rw bad (tt, tt)
]

kind-IsPlain :
    (build : Build) (line : List ℕ) → build.wxp_compat ≡ false → IsPlain (kind build line)
unfolding kind
kind-IsPlain build line off = rw off (ground arith)

wxp_offset-plain : (a : Answer) (k : ℕ) → IsPlain a → wxp_offset a k ≡ pos k
unfolding wxp_offset
wxp_offset-plain snapshot_wxp k h = absurd h
wxp_offset-plain stream_wxp k h = absurd h
wxp_offset-plain _ k h = refl

input_number-Natural :
    (low suffixed : Bool) (a : Answer) (line : List ℕ)
    → (low ≡ true → IsPlain a)
    → Natural low (input_number suffixed a line)
unfolding input_number
input_number-Natural low false a line k e = (0, refl)
input_number-Natural low true a line k e = elim (Option-cases (strchr line b'_')) [
  | inl absent ↦ (0, rw absent)
  | inr (rest, found) ↦
      (suffix_number line, rw found (wxp_offset-plain a (suffix_number line) (k e)))
]

All-append-Loaded :
    (low : Bool) (s : Server) (xs ys : List Reply)
    → All (Loaded low s) xs
    → All (Loaded low s) ys
    → All (Loaded low s) (xs ++ ys)
All-append-Loaded low s [] ys h k = k
All-append-Loaded low s (x ∷ xs) ys h k = (h.0, All-append-Loaded low s xs ys h.1 k)

finish-Loaded :
    (low : Bool) (s : Server) (saved : PluginCommand) (suffixed : Bool) (n : ℤ) (a : Answer)
    (req : Option Request)
    → Natural low n
    → Numbered suffixed a
    → ((req' : Request) → req ≡ some req' → req'.type_ ≡ a)
    → All (Loaded low s) (finish s saved suffixed n req)
unfolding finish
finish-Loaded low s saved suffixed n a none nat num same = tt
finish-Loaded low s saved suffixed n a (some req) nat num same =
    elim (Bool-cases (may_enter s.credentials req.credentials)) [
      | inl granted ↦
          rw granted (dispatch-Loaded low s saved req n nat suffixed (rw (same req refl) num))
      | inr denied ↦ rw denied (tt, tt)
    ]

serve-Loaded :
    (low : Bool) (st : Start) (s : Server) (saved : PluginCommand) (line : List ℕ)
    (lines : List (List ℕ))
    → Prepared low s st
    → All (Loaded low s) (serve st s saved line lines)
unfolding serve
serve-Loaded low (closed replies) s saved line lines p = p
serve-Loaded low (going req suffixed replies) s saved line lines p =
    All-append-Loaded low s replies _ p.2 (
      finish-Loaded low s saved suffixed (input_number suffixed req.type_ line) req.type_
        (read_header req lines) (input_number-Natural low suffixed req.type_ line p.1) p.0
        (read_header-type_ lines req))

-- Every answer that reads from an input plugin, or describes an output plugin, names one below the
-- number of those loaded; in a build without WebcamXP compatibility the number is not negative
-- either, so the plugin is loaded.
pub client_thread-Loaded :
    (build : Build) (s : Server) (saved : PluginCommand) (cheater : Bool) (lines : List (List ℕ))
    → All (Loaded (not build.wxp_compat) s) (client_thread build s saved cheater lines)
unfolding client_thread start
client_thread-Loaded build s saved cheater [] = tt
client_thread-Loaded build s saved cheater (first ∷ lines) =
    let line = c_str first in
    serve-Loaded (not build.wxp_compat) (start build cheater line) s saved line lines (
      start_as-Prepared (not build.wxp_compat) s (kind build line) build cheater line
        (λ e. kind-IsPlain build line (not-true build.wxp_compat e)))
  where
    not-true : (b : Bool) → not b ≡ true → b ≡ false
    not-true true h = cc
    not-true false h = refl
