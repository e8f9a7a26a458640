-- ===== src/Http/Server.antt =====
-- server_thread: the sockets that the server listens on, and the threads that it starts for clients.
pub mod Sockets
pub mod Blocks
pub mod Tests
use raspberry_car.Base.{
  ℕ, zero, suc, ◌+◌, Bool, List, [], ◌∷◌, ◌++◌, Option, none, some, leb, ltb, ◌==◌, if◌then◌else◌,
  length, set, replicate,
}
use raspberry_car.Base.Int.{ℤ}

-- MAX_SD_LEN
abbrev pub max_sd_len : ℕ
max_sd_len = 50

-- What an address of `getaddrinfo` leads to: no socket, one that cannot be bound or cannot listen,
-- or one that listens, with its descriptor.
pub data Opening : Type 0 where
  no_socket unbound deaf : Opening
  listening : ℕ → Opening

-- The array `sd`; `none` is -1.
abbrev pub Sockets : Type 0
Sockets = List (Option ℕ)

-- The loop over the addresses, with the array and `i`: the array behind it, and `sd_len`;
-- `none` is a write behind the array.
unfoldable pub open_loop : Sockets → ℕ → List Opening → Option (Sockets × ℕ)
open_loop sd i [] = some (sd, i)
open_loop sd i (listening fd ∷ openings) =
    let opened = set sd i (some fd) in
    let rest = open_loop opened (i + 1) openings in
    if ltb i (length sd) then (if leb max_sd_len (i + 1) then some (opened, i) else rest) else none
open_loop sd i (opening ∷ openings) =
    let rest = open_loop (set sd i none) i openings in if ltb i (length sd) then rest else none

unfoldable pub open_sockets : List Opening → Option (Sockets × ℕ)
unfolding open_loop
open_sockets openings = open_loop (replicate max_sd_len none) 0 openings

-- What is done with `pcfd`, the block of memory that was allocated for the round: the descriptor of
-- a client is written to it; it is given to a new thread, which reads it when it starts to run; or,
-- where no thread can be made, the client in it is closed, and it is freed.
pub data Act : Type 0 where
  accepts : ℤ → Act
  launch : Act
  drop_client : Act

-- Which sockets `select` finds ready, what `accept` gives for each, -1 included, and whether a
-- thread can be created for that.
pub record Network : Type 0 where
  pub ready : ℕ → Bool
  pub accept : ℕ → ℤ
  pub creates : ℤ → Bool

abbrev pub client_acts : Network → ℕ → List Act
client_acts w fd =
    accepts (w.accept fd) ∷ (if w.creates (w.accept fd) then launch else drop_client) ∷ []

abbrev pub before : List Act → Option (List Act) → Option (List Act)
before first none = none
before first (some acts) = some (first ++ acts)

-- The loop over the first `n` places of `sd`, where `n` is `max_fds + 1`; `none` is a read behind
-- the array.
unfoldable pub accept_loop : Network → ℕ → Sockets → Option (List Act)
accept_loop w zero sd = some []
accept_loop w (suc n) [] = none
accept_loop w (suc n) (none ∷ sd) = accept_loop w n sd
accept_loop w (suc n) (some fd ∷ sd) =
    let rest = accept_loop w n sd in if w.ready fd then before (client_acts w fd) rest else rest
