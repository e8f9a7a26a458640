-- ===== src/Http/Buffer/Line.antt =====
-- `_readline` cuts the byte stream of a connection into lines.
use raspberry_car.Base.{
  ℕ, zero, suc, ◌≡◌, refl, sym, ap, ◌∙◌, true, false, List, [], ◌∷◌, ◌++◌, append_assoc, append-nil,
  Option, none, some, ◌⊎◌, inl, inr, not, ◌==◌, if◌then◌else◌, take, drop, length, arith, subst,
  Bool-cases,
}
use raspberry_car.Http.Buffer.{
  IoBuffer, Event, ready, timed_out, select_failed, closed, Status, count, error, exited, Received,
  stop, read, readline_loop, readline,
}
use raspberry_car.Http.Buffer.Round.{pending, IsValid, Fits, available, ending}
use raspberry_car.Http.Buffer.Stream.{read-Served, read_short}

abbrev pub prepend : ℕ → Option (List ℕ × List ℕ) → Option (List ℕ × List ℕ)
prepend c none = none
prepend c (some (line, rest)) = some (c ∷ line, rest)

-- The next line of a stream, its line feed included, of at most `len` bytes, and what follows it;
-- `none` if the stream ends before.
unfoldable pub next_line : ℕ → List ℕ → Option (List ℕ × List ℕ)
next_line zero s = some ([], s)
next_line (suc n) [] = none
next_line (suc n) (c ∷ s) =
    let longer = prepend c (next_line n s) in if c == b'\n' then some (c ∷ [], s) else longer

-- `r` is what `_readline` does for the line `o`, with `out` already read.
abbrev pub Reads : List ℕ → Option (List ℕ × List ℕ) → Received → Type 0
Reads out none r = (r.status ≡ error) ⊎ (r.status ≡ exited)
Reads out (some (line, rest)) r =
    (r.status ≡ count (length (out ++ line)))
    × (r.bytes ≡ out ++ line)
    × (pending r.io ++ available r.socket ≡ rest)
    × IsValid r.io
    × Fits r.socket

Reads-prepend :
    (out : List ℕ) (c : ℕ) (o : Option (List ℕ × List ℕ)) (r : Received)
    → Reads (out ++ c ∷ []) o r
    → Reads out (prepend c o) r
Reads-prepend out c none r h = h
Reads-prepend out c (some (line, rest)) r h =
    subst
      (λ l.
        (r.status ≡ count (length l))
        × (r.bytes ≡ l)
        × (pending r.io ++ available r.socket ≡ rest)
        × IsValid r.io
        × Fits r.socket)
      (append_assoc out (c ∷ []) line) h

-- After a line feed the loop is left, however much room there is.
loop-stop :
    (n : ℕ) (socket : List Event) (io : IoBuffer) (out : List ℕ)
    → readline_loop n socket io out false ≡ stop (count (length out)) out io socket
unfolding readline_loop
loop-stop zero socket io out = refl
loop-stop (suc n) socket io out = refl

loop-next :
    (n : ℕ) (socket : List Event) (io : IoBuffer) (out : List ℕ) (c : ℕ)
    → (read socket io 1).status ≡ count 1
    → (read socket io 1).bytes ≡ c ∷ []
    → readline_loop (suc n) socket io out true
      ≡ readline_loop n
          (read socket io 1).socket
          (read socket io 1).io
          (out ++ c ∷ [])
          (not (c == b'\n'))
unfolding readline_loop
loop-next n socket io out c h k = rw (h, k)

loop-fail :
    (n : ℕ) (socket : List Event) (io : IoBuffer) (out : List ℕ) (st : Status)
    → (read socket io 1).status ≡ st
    → (read socket io 1).bytes ≡ []
    → (st ≡ count 0) ⊎ (st ≡ error) ⊎ (st ≡ exited)
    → Reads out none (readline_loop (suc n) socket io out true)
unfolding readline_loop
loop-fail n socket io out st h k c = ground arith

ending_zero :
    (socket : List Event)
    → (ending socket 0 ≡ count 0) ⊎ (ending socket 0 ≡ error) ⊎ (ending socket 0 ≡ exited)
unfolding ending
ending_zero [] = ground arith
ending_zero (ready chunk ∷ s) = ending_zero s
ending_zero (timed_out ∷ s) = ground arith
ending_zero (select_failed ∷ s) = ground arith
ending_zero (closed ∷ s) = ground arith

abbrev Loop : ℕ → Type 0
Loop n =
    (socket : List Event) (io : IoBuffer) (out s : List ℕ)
    → IsValid io
    → Fits socket
    → pending io ++ available socket ≡ s
    → Reads out (next_line n s) (readline_loop n socket io out true)

loop_empty :
    (n : ℕ) (socket : List Event) (io : IoBuffer) (out : List ℕ)
    → IsValid io
    → Fits socket
    → pending io ++ available socket ≡ []
    → Reads out none (readline_loop (suc n) socket io out true)
loop_empty n socket io out v fit e =
    let k = ap length e in
    let (b, st) = read_short socket io 1 v fit (omega (arith, k)) in
    loop-fail n socket io out (ending socket 0) (st ∙ ap (ending socket) k) (b ∙ e)
      (ending_zero socket)

Loop-cons :
    (n : ℕ) (socket : List Event) (io : IoBuffer) (out : List ℕ) (c : ℕ) (s : List ℕ)
    → Loop n
    → IsValid io
    → Fits socket
    → pending io ++ available socket ≡ c ∷ s
    → Reads out (next_line (suc n) (c ∷ s)) (readline_loop (suc n) socket io out true)
unfolding next_line
Loop-cons n socket io out c s ih v fit e =
    let served = read-Served socket io 1 v fit (omega arith) (omega (arith, ap length e)) in
    let r = read socket io 1 in
    let remaining : pending r.io ++ available r.socket ≡ s = served.remaining ∙ ap (drop 1) e in
    rw (loop-next n socket io out c served.full (served.first ∙ ap (take 1) e))
      (elim (Bool-cases (c == b'\n')) [
        | inl line_feed ↦ rw line_feed (
            rw (loop-stop n r.socket r.io (out ++ c ∷ []))
              (refl, refl, remaining, served.valid, served.fits))
        | inr other ↦ rw other (
            Reads-prepend out c (next_line n s) _
              (ih r.socket r.io (out ++ c ∷ []) s served.valid served.fits remaining))
      ])

loop_lem : (n : ℕ) → Loop n
loop_lem zero socket io out s v fit e =
    unfold readline_loop next_line in
    subst
      (λ l.
        (count (length out) ≡ count (length l))
        × (out ≡ l)
        × (pending io ++ available socket ≡ s)
        × IsValid io
        × Fits socket)
      (sym (append-nil out)) (refl, refl, e, v, fit)
loop_lem (suc n) socket io out [] v fit e = unfold next_line in loop_empty n socket io out v fit e
loop_lem (suc n) socket io out (c ∷ s) v fit e = Loop-cons n socket io out c s (loop_lem n) v fit e

-- `_readline` returns the next line of the bytes that come before the socket fails or times out,
-- cut off after `len` bytes, with its length, and keeps all that follows for the next call,
-- however the socket cuts the bytes into pieces; it fails exactly where the bytes end before the
-- line does.
pub readline-next_line :
    (socket : List Event) (io : IoBuffer) (len : ℕ)
    → IsValid io
    → Fits socket
    → Reads [] (next_line len (pending io ++ available socket)) (readline socket io len)
unfolding readline
readline-next_line socket io len v fit =
    loop_lem len socket io [] (pending io ++ available socket) v fit refl
