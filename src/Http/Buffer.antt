-- ===== src/Http/Buffer.antt =====
-- init_iobuffer, _read and _readline: buffered reading from a client's socket.
pub mod Stream
pub mod Round
pub mod Line
use raspberry_car.Base.{
  ℕ, zero, suc, ◌+◌, ◌-◌, Bool, true, false, List, [], ◌∷◌, ◌++◌, min, leb, ltb, not, ◌==◌, ◌&&◌,
  if◌then◌else◌, take, drop, length, replicate,
}

abbrev pub io_buffer : ℕ
io_buffer = 256

-- `iobuffer`: the last `level` bytes of the array are unread.
pub record IoBuffer : Type 0 where
  pub level : ℕ
  pub buffer : List ℕ

abbrev pub init_iobuffer : IoBuffer
init_iobuffer = record { level = 0; buffer = replicate io_buffer 0 }

-- What the socket does at one call of `select`: bytes that `read` then returns, a timeout, an
-- error of `select`, or an error or end of file of `read`. At the end of a list of these the
-- socket stays silent, and `select` times out.
pub data Event : Type 0 where
  ready : List ℕ → Event
  timed_out : Event
  select_failed : Event
  closed : Event

-- The return value of `_read`, or the end of the process by `exit`.
pub data Status : Type 0 where
  count : ℕ → Status
  error : Status
  exited : Status

pub record Received : Type 0 where
  pub status : Status
  pub bytes : List ℕ
  pub io : IoBuffer
  pub socket : List Event

abbrev pub stop : Status → List ℕ → IoBuffer → List Event → Received
stop st out io socket = record { status = st; bytes = out; io = io; socket = socket }

-- The `memcpy` of a round: what it copies, and the buffer behind it.
abbrev pub copied : IoBuffer → ℕ → List ℕ
copied io i = take i (drop (io_buffer - io.level) io.buffer)

-- `init_iobuffer`, `read`, and the `memmove` that aligns the bytes to the end of the buffer.
abbrev pub refill : List ℕ → IoBuffer
refill chunk =
    let filled = chunk ++ replicate (io_buffer - length chunk) 0 in
    record {
      level = length chunk;
      buffer = take (io_buffer - length chunk) filled ++ take (length chunk) filled;
    }

-- A round of the loop of `_read`, up to where it waits for the socket; `out` holds what is copied
-- so far, and the loop that is not entered leads to the `return 0` behind it.
unfoldable pub read_round :
    IoBuffer → ℕ → List ℕ → List Event → (IoBuffer → List ℕ → Received) → Received
read_round io len out socket wait =
    let i = min io.level (len - length out) in
    let out' = out ++ copied io i in
    let io' : IoBuffer = record io { level = io.level - i } in
    if not (ltb (length out) len)
    then stop (count 0) out io socket
    else if leb len (length out')
    then stop (count (length out')) out' io' socket
    else wait io' out'

-- A failed `read` leaves no byte in the buffer. (The source may leave a negative level there, but
-- the callers do not read again.)
unfoldable pub read_loop : List Event → IoBuffer → ℕ → List ℕ → Received
unfolding read_round
read_loop [] io len out =
    read_round io len out [] (λ io' out'. stop (count (length out')) out' io' [])
read_loop (timed_out ∷ s) io len out =
    read_round io len out (timed_out ∷ s) (λ io' out'. stop (count (length out')) out' io' s)
read_loop (select_failed ∷ s) io len out =
    read_round io len out (select_failed ∷ s) (λ io' out'. stop exited out' io' s)
read_loop (closed ∷ s) io len out =
    read_round io len out (closed ∷ s) (λ io' out'. stop error out' init_iobuffer s)
read_loop (ready chunk ∷ s) io len out = read_round io len out (ready chunk ∷ s) (λ io' out'.
    let again = read_loop s (refill chunk) len out' in
    if length chunk == 0 then stop error out' init_iobuffer s else again)

unfoldable pub read : List Event → IoBuffer → ℕ → Received
unfolding read_loop
read socket io len = read_loop socket io len []

-- The loop of `_readline`, with `rounds` more bytes of room; `out` is the line so far, and `more`
-- says whether the last byte was no line feed.
unfoldable pub readline_loop : ℕ → List Event → IoBuffer → List ℕ → Bool → Received
unfolding read
readline_loop zero socket io out more = stop (count (length out)) out io socket
readline_loop (suc rounds) socket io out more =
    let r = read socket io 1 in
    let next = λ (c : ℕ). readline_loop rounds r.socket r.io (out ++ c ∷ []) (not (c == b'\n')) in
    let received : Received = elim r.status [
      | exited ↦ stop exited out r.io r.socket
      | error ↦ stop error out r.io r.socket
      | count n ↦ elim r.bytes [ [] ↦ stop error out r.io r.socket | c ∷ _ ↦ next c ]
    ] in
    if more then received else stop (count (length out)) out io socket

unfoldable pub readline : List Event → IoBuffer → ℕ → Received
unfolding readline_loop
readline socket io len = readline_loop len socket io [] true
