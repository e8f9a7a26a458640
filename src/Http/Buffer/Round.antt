-- ===== src/Http/Buffer/Round.antt =====
-- The bytes that a socket delivers, and one round of _read.
use raspberry_car.Base.{
  ℕ, ◌+◌, ◌-◌, ◌≤◌, ◌<◌, ◌≡◌, refl, sym, ap, ◌∙◌, List, [], ◌∷◌, ◌++◌, min, take, drop, length,
  replicate, length-append, length-take, length-drop, length-replicate, drop-drop, drop-append,
  take-append, take-append_ge, take-append_le, drop-append_ge, drop-append_le, take_all, arith,
}
use raspberry_car.Http.Buffer.{
  io_buffer, IoBuffer, init_iobuffer, Event, ready, timed_out, select_failed, closed, Status, count,
  error, exited, Received, stop, refill, read_round,
}

-- The bytes that were received and not yet handed out.
abbrev pub pending : IoBuffer → List ℕ
pending io = drop (io_buffer - io.level) io.buffer

pub record IsValid (io : IoBuffer) : Type 0 where
  pub array : length io.buffer ≡ io_buffer
  pub within : io.level ≤ io_buffer

-- What `read` documents of its result: at least one byte, and at most as many as asked for.
abbrev pub Fits : List Event → Type 0
Fits [] = Unit
Fits (ready chunk ∷ s) = (0 < length chunk) × (length chunk ≤ io_buffer) × Fits s
Fits (_ ∷ s) = Fits s

-- The bytes that come before the socket first fails or falls silent.
unfoldable pub available : List Event → List ℕ
available (ready chunk ∷ s) = chunk ++ available s
available _ = []

-- What `_read` reports when the bytes run out, after `n` of them.
unfoldable pub ending : List Event → ℕ → Status
ending (ready chunk ∷ s) n = ending s n
ending (select_failed ∷ s) n = exited
ending (closed ∷ s) n = error
ending (timed_out ∷ s) n = count n
ending [] n = count n

pub init_iobuffer-IsValid : IsValid init_iobuffer
init_iobuffer-IsValid = record { array = length-replicate {A = ℕ} 256 0; within = omega arith }

pub length-pending : (io : IoBuffer) → IsValid io → length (pending io) ≡ io.level
length-pending io v = omega (arith, length-drop (io_buffer - io.level) io.buffer, v.array, v.within)

pub pending-level :
    (io : IoBuffer) (i : ℕ)
    → IsValid io
    → i ≤ io.level
    → pending (record io { level = io.level - i }) ≡ drop i (pending io)
pending-level io i v h =
    let e : io_buffer - (io.level - i) ≡ io_buffer - io.level + i = omega (arith, v.within) in
    rw e (drop-drop io.buffer (io_buffer - io.level) i)

module _ (chunk : List ℕ) (fit : length chunk ≤ io_buffer) where
  abbrev filled : List ℕ
  filled = chunk ++ replicate (io_buffer - length chunk) 0

  length-filled : length filled ≡ io_buffer
  length-filled = omega (
    arith,
    length-append chunk (replicate (io_buffer - length chunk) 0),
    length-replicate {A = ℕ} (io_buffer - length chunk) 0,
  )

  pub refill-IsValid : IsValid (refill chunk)
  refill-IsValid = record {
    array = omega (
      arith,
      length-append (take (io_buffer - length chunk) filled) (take (length chunk) filled),
      length-take (io_buffer - length chunk) filled,
      length-take (length chunk) filled,
      length-filled,
    );
    within = fit;
  }

  pub pending-refill : pending (refill chunk) ≡ chunk
  pending-refill =
      drop-append (take (io_buffer - length chunk) filled) (take (length chunk) filled)
        (io_buffer - length chunk)
        (omega (arith, length-take (io_buffer - length chunk) filled, length-filled))
      ∙ take-append chunk (replicate (io_buffer - length chunk) 0) (length chunk) refl

-- A round that has enough buffered bytes returns; another hands out all it has and waits.
module _ (io : IoBuffer) (len : ℕ) (out : List ℕ) (socket : List Event)
    (wait : IoBuffer → List ℕ → Received) (v : IsValid io) (open_ : length out < len) where
  round-enough :
      len ≤ length out + io.level
      → read_round io len out socket wait
        ≡ stop
            (count len)
            (out ++ take (len - length out) (pending io))
            (record io { level = io.level - (len - length out) })
            socket
  unfolding read_round
  round-enough h =
      let i : min io.level (len - length out) ≡ len - length out = omega arith in
      let n : length (out ++ take (len - length out) (pending io)) ≡ len = omega (
        arith,
        length-append out (take (len - length out) (pending io)),
        length-take (len - length out) (pending io),
        length-pending io v,
      ) in
      rw (i, n) (ground arith)

  pub round-short :
      length out + io.level < len
      → read_round io len out socket wait ≡ wait (record io { level = 0 }) (out ++ pending io)
  unfolding read_round
  round-short h =
      let i : min io.level (len - length out) ≡ io.level = omega arith in
      let z : io.level - io.level ≡ 0 = omega arith in
      let a = take_all io.level (pending io) (omega (arith, length-pending io v)) in
      rw (i, z, a) (ground (arith, length-append out (pending io), length-pending io v))

-- `r` hands out the first `len` bytes of `s`, and keeps the others for later.
pub record Served (len : ℕ) (s : List ℕ) (r : Received) : Type 0 where
  pub full : r.status ≡ count len
  pub first : r.bytes ≡ take len s
  pub remaining : pending r.io ++ available r.socket ≡ drop len s
  pub valid : IsValid r.io
  pub fits : Fits r.socket

pub round-Served :
    (io : IoBuffer) (len : ℕ) (out : List ℕ) (socket : List Event)
    (wait : IoBuffer → List ℕ → Received)
    → IsValid io
    → Fits socket
    → length out < len
    → len ≤ length out + io.level
    → Served len (out ++ (pending io ++ available socket)) (read_round io len out socket wait)
round-Served io len out socket wait v fit open_ h =
    let k = len - length out in
    let short : k ≤ length (pending io) = omega (arith, length-pending io v) in
    rw (round-enough io len out socket wait v open_ h) (record {
      full = refl;
      first = sym (
          take-append_ge out (pending io ++ available socket) len (omega arith)
          ∙ ap (λ l. out ++ l) (take-append_le (pending io) (available socket) k short));
      remaining =
          ap (λ l. l ++ available socket) (pending-level io k v (omega arith))
          ∙ sym (
              drop-append_ge out (pending io ++ available socket) len (omega arith)
              ∙ drop-append_le (pending io) (available socket) k short);
      valid = record { array = v.array; within = omega (arith, v.within) };
      fits = fit;
    })
