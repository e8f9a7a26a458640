-- ===== src/Http/Buffer/Stream.antt =====
-- `_read` serves the bytes of the connection in order, however the socket cuts them into pieces.
use raspberry_car.Base.{
  ℕ, ◌+◌, ◌≤◌, ◌<◌, ◌≡◌, refl, false, List, [], ◌∷◌, ◌++◌, append_assoc, append-nil, ◌==◌,
  if◌then◌else◌, length, length-append, arith, dec_lt,
}
use raspberry_car.Http.Buffer.{
  IoBuffer, init_iobuffer, Event, ready, timed_out, select_failed, closed, count, error, exited,
  Received, stop, refill, read_loop, read,
}
use raspberry_car.Http.Buffer.Round.{
  IsValid, Served, pending, Fits, available, ending, length-pending, refill-IsValid, pending-refill,
  round-short, round-Served,
}

abbrev ReadLoop-Served : List Event → Type 0
ReadLoop-Served socket =
    (io : IoBuffer) (len : ℕ) (out : List ℕ)
    → IsValid io
    → Fits socket
    → length out < len
    → len ≤ length out + io.level + length (available socket)
    → Served len (out ++ (pending io ++ available socket)) (read_loop socket io len out)

-- A round that waits for the bytes of `chunk`.
ready-Served :
    (chunk : List ℕ) (s : List Event) → ReadLoop-Served s → ReadLoop-Served (ready chunk ∷ s)
unfolding read_loop available
ready-Served chunk s ih io len out v fit open_ h =
    let wait : IoBuffer → List ℕ → Received = λ io' out'.
      let again = read_loop s (refill chunk) len out' in
      if length chunk == 0 then stop error out' init_iobuffer s else again in
    elim (dec_lt (length out + io.level) len) [
      | no enough ↦ round-Served io len out (ready chunk ∷ s) wait v fit open_ (omega arith)
      | yes short ↦
          let ne : (length chunk == 0) ≡ false = ground (arith, fit.0) in
          let e : (out ++ pending io) ++ (pending (refill chunk) ++ available s)
              ≡ out ++ (pending io ++ (chunk ++ available s)) =
            rw (pending-refill chunk fit.1)
              (append_assoc out (pending io) (chunk ++ available s)) in
          rw (round-short io len out (ready chunk ∷ s) wait v open_ short) (
            rw ne (
              rw (← e) (
                ih (refill chunk) len (out ++ pending io) (refill-IsValid chunk fit.1) fit.2
                  (omega (arith, length-append out (pending io), length-pending io v))
                  (omega (
                    arith,
                    length-append out (pending io),
                    length-pending io v,
                    length-append chunk (available s),
                  )))))
    ]

read_loop-Served : (socket : List Event) → ReadLoop-Served socket
unfolding read_loop available
read_loop-Served [] io len out v fit open_ h =
    round-Served io len out [] (λ io' out'. stop (count (length out')) out' io' []) v fit open_
      (omega arith)
read_loop-Served (timed_out ∷ s) io len out v fit open_ h =
    round-Served io len out (timed_out ∷ s) (λ io' out'. stop (count (length out')) out' io' s) v
      fit open_ (omega arith)
read_loop-Served (select_failed ∷ s) io len out v fit open_ h =
    round-Served io len out (select_failed ∷ s) (λ io' out'. stop exited out' io' s) v fit open_
      (omega arith)
read_loop-Served (closed ∷ s) io len out v fit open_ h =
    round-Served io len out (closed ∷ s) (λ io' out'. stop error out' init_iobuffer s) v fit open_
      (omega arith)
read_loop-Served (ready chunk ∷ s) io len out v fit open_ h =
    ready-Served chunk s (read_loop-Served s) io len out v fit open_ h

-- Where enough bytes are buffered or come before the socket fails or times out, `_read` returns
-- `len`, hands out the first `len` bytes of the connection, keeps the others in order, and keeps
-- its buffer however the socket cuts the bytes into pieces.
pub read-Served :
    (socket : List Event) (io : IoBuffer) (len : ℕ)
    → IsValid io
    → Fits socket
    → 0 < len
    → len ≤ length (pending io ++ available socket)
    → Served len (pending io ++ available socket) (read socket io len)
unfolding read
read-Served socket io len v fit pos h =
    read_loop-Served socket io len [] v fit pos
      (omega (arith, length-append (pending io) (available socket), length-pending io v))

ShortLoop : List Event → Type 0
ShortLoop socket =
    (io : IoBuffer) (len : ℕ) (out : List ℕ)
    → IsValid io
    → Fits socket
    → length out + io.level + length (available socket) < len
    → ((read_loop socket io len out).bytes ≡ out ++ (pending io ++ available socket))
      × ((read_loop socket io len out).status
          ≡ ending socket (length (out ++ (pending io ++ available socket))))

ready_short : (chunk : List ℕ) (s : List Event) → ShortLoop s → ShortLoop (ready chunk ∷ s)
unfolding ShortLoop read_loop available ending
ready_short chunk s ih io len out v fit h =
    let wait : IoBuffer → List ℕ → Received = λ io' out'.
      let again = read_loop s (refill chunk) len out' in
      if length chunk == 0 then stop error out' init_iobuffer s else again in
    let ne : (length chunk == 0) ≡ false = ground (arith, fit.0) in
    let e : (out ++ pending io) ++ (pending (refill chunk) ++ available s)
        ≡ out ++ (pending io ++ (chunk ++ available s)) =
      rw (pending-refill chunk fit.1) (append_assoc out (pending io) (chunk ++ available s)) in
    let size = length-append chunk (available s) in
    rw (round-short io len out (ready chunk ∷ s) wait v (omega arith) (omega (arith, size))) (
      rw ne (
        rw (← e) (
          ih (refill chunk) len (out ++ pending io) (refill-IsValid chunk fit.1) fit.2
            (omega (arith, length-append out (pending io), length-pending io v, size)))))

read_loop_short : (socket : List Event) → ShortLoop socket
unfolding ShortLoop read_loop available ending
read_loop_short [] io len out v fit h =
    rw
      (
        round-short io len out [] (λ io' out'. stop (count (length out')) out' io' []) v
            (omega arith) (omega arith),
        append-nil,
      )
      (refl, refl)
read_loop_short (timed_out ∷ s) io len out v fit h =
    rw
      (
        round-short io len out (timed_out ∷ s) (λ io' out'. stop (count (length out')) out' io' s) v
            (omega arith) (omega arith),
        append-nil,
      )
      (refl, refl)
read_loop_short (select_failed ∷ s) io len out v fit h =
    rw
      (
        round-short io len out (select_failed ∷ s) (λ io' out'. stop exited out' io' s) v
            (omega arith) (omega arith),
        append-nil,
      )
      (refl, refl)
read_loop_short (closed ∷ s) io len out v fit h =
    rw
      (
        round-short io len out (closed ∷ s) (λ io' out'. stop error out' init_iobuffer s) v
            (omega arith) (omega arith),
        append-nil,
      )
      (refl, refl)
read_loop_short (ready chunk ∷ s) io len out v fit h =
    ready_short chunk s (read_loop_short s) io len out v fit h

-- Where the bytes run out, `_read` hands out all of them and reports why it stopped: their number
-- at a timeout, the error of `read`, or the end of the process at an error of `select`.
pub read_short :
    (socket : List Event) (io : IoBuffer) (len : ℕ)
    → IsValid io
    → Fits socket
    → length (pending io ++ available socket) < len
    → ((read socket io len).bytes ≡ pending io ++ available socket)
      × ((read socket io len).status ≡ ending socket (length (pending io ++ available socket)))
unfolding read ShortLoop
read_short socket io len v fit h =
    read_loop_short socket io len [] v fit
      (omega (arith, length-append (pending io) (available socket), length-pending io v))
