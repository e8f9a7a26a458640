-- ===== src/Http/Client/Limits.antt =====
-- The limit on the rate of pictures.
use raspberry_car.Base.{
  ℕ, ◌≡◌, refl, sym, subst, ap, ◌∙◌, true, false, List, [], ◌∷◌, Option, none, some, inl, inr, All,
  Bool-cases,
}
use raspberry_car.Base.Int.{ℤ}
use raspberry_car.CString.{c_str}
use raspberry_car.Http.Request.{
  Build, Answer, unknown, snapshot, snapshot_wxp, stream, stream_wxp, Request, Reply, send_error,
  Start, going, start_pictures, start_as, start, input_number, kind,
}
use raspberry_car.Http.Client.{
  Server, PluginCommand, read_header, answer, dispatch, finish, serve, client_thread, may_enter,
}
use raspberry_car.Http.Client.Password.{IsError}
use raspberry_car.Http.Client.Plugins.Header.{read_header-type_}

-- A request of the four types that pictures are served for.
abbrev pub IsPictures : Answer → Type 0
IsPictures snapshot = Unit {0}
IsPictures snapshot_wxp = Unit {0}
IsPictures stream = Unit {0}
IsPictures stream_wxp = Unit {0}
IsPictures _ = ⊥

abbrev refused : Request
refused = record {
  type_ = unknown;
  parameter = none;
  client = none;
  credentials = none;
  query_string = none;
}

start_as-cheater :
    (a : Answer) (build : Build) (line : List ℕ)
    → IsPictures a
    → build.managment ≡ true
    → (req : Request) × (start_as a build true line ≡ going req false (send_error 403 ∷ []))
      × (req.type_ ≡ unknown)
unfolding start_as start_pictures
start_as-cheater snapshot build line p m = (refused, rw m, refl)
start_as-cheater snapshot_wxp build line p m = (refused, rw m, refl)
start_as-cheater stream build line p m = (refused, rw m, refl)
start_as-cheater stream_wxp build line p m = (refused, rw m, refl)
start_as-cheater _ build line p m = absurd p

finish-unknown :
    (s : Server) (saved : PluginCommand) (n : ℤ) (req : Option Request)
    → ((req' : Request) → req ≡ some req' → req'.type_ ≡ unknown)
    → All IsError (finish s saved false n req)
unfolding finish dispatch answer
finish-unknown s saved n none same = tt
finish-unknown s saved n (some req) same =
    elim (Bool-cases (may_enter s.credentials req.credentials)) [
      | inl granted ↦
          rw granted
            (subst (λ (a : Answer). All IsError (answer a s saved req n)) (sym (same req refl)) tt)
      | inr denied ↦ rw denied (tt, tt)
    ]

-- With the management of clients, a client that asks for a snapshot or a stream too soon after its
-- last picture gets the error 403 first and nothing but errors after it.
pub client_thread-cheater :
    (build : Build) (s : Server) (saved : PluginCommand) (first : List ℕ) (lines : List (List ℕ))
    → build.managment ≡ true
    → IsPictures (kind build (c_str first))
    → (rest : List Reply) × (client_thread build s saved true (first ∷ lines)
        ≡ send_error 403 ∷ rest)
      × All IsError rest
unfolding client_thread serve start
client_thread-cheater build s saved first lines m p =
    let line = c_str first in
    let (req, started, u) = start_as-cheater (kind build line) build line p m in
    (
      finish s saved false (input_number false req.type_ line) (read_header req lines),
      ap (λ (st : Start). serve st s saved line lines) started,
      finish-unknown s saved (input_number false req.type_ line) (read_header req lines)
          (λ req' e. read_header-type_ lines req req' e ∙ u),
    )
