-- ===== src/Http/Client/Plugins/Negative.antt =====
-- WebcamXP counts its cameras from 1: the number 0.
use raspberry_car.Base.{
  ◌+◌, ℕ, ◌≡◌, refl, ap, ◌∙◌, Bool, true, false, not, ◌&&◌, List, [], ◌∷◌, Option, none, some,
  if◌then◌else◌, ltb, arith,
}
use raspberry_car.Base.Int.{ℤ, negsuc}
use raspberry_car.CString.{c_str, strchr}
use raspberry_car.Http.Request.{
  Build, Answer, snapshot_wxp, Request, send_error, send_snapshot, going, start_pictures, start_as,
  start, input_number, wxp_offset, suffix_number, kind,
}
use raspberry_car.Http.Client.{
  Server, PluginCommand, header_line, read_header, out_of_range, answer, dispatch, finish, serve,
  client_thread, may_enter, goes_on,
}
use raspberry_car.Http.Client.Plugins.Header.{header_line-type_}

wxp_number :
    (a : Answer) (line rest : List ℕ)
    → a ≡ snapshot_wxp
    → strchr line b'_' ≡ some rest
    → suffix_number line ≡ 0
    → input_number true a line ≡ negsuc 0
unfolding input_number wxp_offset
wxp_number a line rest t u z = ap (λ (b : Answer). input_number true b line) t ∙ rw (u, z)

finish_wxp :
    (s : Server) (saved : PluginCommand) (req : Request)
    → req.type_ ≡ snapshot_wxp
    → s.credentials ≡ none
    → finish s saved true (negsuc 0) (some req) ≡ send_snapshot (negsuc 0) ∷ []
unfolding finish may_enter dispatch out_of_range answer
finish_wxp s saved req t free =
    ap
      (λ (c : Option (List ℕ)).
        if may_enter c req.credentials
        then dispatch s saved true req (negsuc 0)
        else send_error 401 ∷ [])
      free
    ∙ ap
        (λ (a : Answer).
          if true && out_of_range s a (negsuc 0)
          then send_error 404 ∷ []
          else answer a s saved req (negsuc 0))
        t
    ∙ ap (λ (b : Bool). if not b then send_error 404 ∷ [] else send_snapshot (negsuc 0) ∷ [])
        in_range
  where
    in_range : ltb 0 (s.incnt + 1) ≡ true
    in_range = ground arith

read_header_one :
    (req : Request) (blank : List ℕ)
    → goes_on blank ≡ false
    → read_header req (blank ∷ []) ≡ some (header_line req (c_str blank))
unfolding read_header
read_header_one req blank h = rw h

start_wxp :
    (build : Build) (cheater : Bool) (line : List ℕ)
    → kind build line ≡ snapshot_wxp
    → (build.managment && cheater) ≡ false
    → (req : Request) × (start build cheater line ≡ going req true []) × (req.type_ ≡ snapshot_wxp)
unfolding start start_as start_pictures
start_wxp build cheater line k fresh = (
  record {
    type_ = snapshot_wxp;
    parameter = none;
    client = none;
    credentials = none;
    query_string = none;
  },
  rw (k, fresh),
  refl,
)

-- With WebcamXP compatibility the number 0 (or no digit) behind the underscore becomes -1, passes
-- the check of the range, and is used: such a request for a picture, on a server without password
-- and with no limit of rate in the way, is answered from input -1, before the first plugin.
pub client_thread_wxp_negative :
    (build : Build) (s : Server) (saved : PluginCommand) (cheater : Bool)
    (first rest blank : List ℕ)
    → kind build (c_str first) ≡ snapshot_wxp
    → (build.managment && cheater) ≡ false
    → s.credentials ≡ none
    → strchr (c_str first) b'_' ≡ some rest
    → suffix_number (c_str first) ≡ 0
    → goes_on blank ≡ false
    → client_thread build s saved cheater (first ∷ blank ∷ []) ≡ send_snapshot (negsuc 0) ∷ []
unfolding client_thread serve
client_thread_wxp_negative build s saved cheater first rest blank k fresh free u z last =
    let line = c_str first in
    let (req, started, t) = start_wxp build cheater line k fresh in
    let number = wxp_number req.type_ line rest t u z in
    rw started (
      ap (λ (n : ℤ). finish s saved true n (read_header req (blank ∷ []))) number
      ∙ ap (λ (o : Option Request). finish s saved true (negsuc 0) o)
          (read_header_one req blank last)
      ∙ finish_wxp s saved (header_line req (c_str blank)) (header_line-type_ req (c_str blank) ∙ t)
          free)
