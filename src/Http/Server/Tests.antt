-- ===== src/Http/Server/Tests.antt =====
-- Runs of the server's thread.
use raspberry_car.Base.{◌+◌, ◌≡◌, true, List, [], ◌∷◌, none, some, replicate}
use raspberry_car.Base.Int.{pos}
use raspberry_car.Http.Server.{
  Opening, no_socket, unbound, listening, Sockets, open_sockets, Network,
}
use raspberry_car.Http.Server.Sockets.{open_sockets_lem}

abbrev openings : List Opening
openings = unbound ∷ listening 4 ∷ no_socket ∷ listening 5 ∷ []

open_sockets_lem_example : open_sockets openings ≡ some (some 4 ∷ some 5 ∷ replicate 48 none, 2)
open_sockets_lem_example = open_sockets_lem openings

-- Two sockets, both ready.
abbrev network : Network
network = record { ready = λ fd. true; accept = λ fd. pos (fd + 2); creates = λ fd. true }

abbrev sockets : Sockets
sockets = some 4 ∷ some 5 ∷ replicate 48 none
