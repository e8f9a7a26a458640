-- ===== src/Http/Tests.antt =====
-- Runs of the server's parts.
pub mod Requests
pub mod Rates
pub mod Files
pub mod Commands
use raspberry_car.Base.{
  take, ℕ, ◌≡◌, ◌≢◌, refl, true, false, List, [], ◌∷◌, ◌++◌, All, replicate, length-replicate,
  length, arith,
}
use raspberry_car.CString.{codes}
use raspberry_car.Http.Unescape.{unescape}
use raspberry_car.Http.Unescape.Percent.{percent_decode, Agrees}
use raspberry_car.Http.Unescape.Decode.{unescape-percent_decode}
use raspberry_car.Http.Base64.{sextet, decode_base64}
use raspberry_car.Http.Base64.Quads.{decoded}
use raspberry_car.Http.Base64.Decode.{Holds, decode_base64_lem}
use raspberry_car.Http.Base64.Encode.{encode, padding, decode_base64-encode}
use raspberry_car.Http.Buffer.{
  init_iobuffer, Event, ready, timed_out, Received, read, readline, count,
}
use raspberry_car.Http.Buffer.Round.{pending, available, ending, Served, init_iobuffer-IsValid}
use raspberry_car.Http.Buffer.Stream.{read-Served, read_short}
use raspberry_car.Http.Buffer.Line.{next_line, Reads, readline-next_line}
use raspberry_car.Http.Stream.{Frame, Round, CopiesFit, send_stream, send_stream-CopiesFit, wire}
use raspberry_car.Http.Snapshot.{snapshot_header, send_snapshot, join, send_snapshot_lem}

unescape-percent_decode_example :
    Agrees [] (percent_decode (codes "a%20b")) (unescape (codes "a%20b" ++ 0 ∷ 7 ∷ []))
unescape-percent_decode_example = unescape-percent_decode (codes "a%20b") (7 ∷ []) (omega arith)

decode_base64-encode_example :
    Holds
      (codes "user" ++ padding (codes "user"))
      (decode_base64 ((encode (codes "user") ++ 13 ∷ 10 ∷ []) ++ 0 ∷ []))
unfolding sextet
decode_base64-encode_example =
    decode_base64-encode (codes "user") (13 ∷ 10 ∷ []) [] (omega arith) (refl, (refl, tt))
      (omega arith)

-- A request in two pieces.
abbrev pieces : List Event
pieces = ready (codes "GET /") ∷ ready (codes " \r\nHost") ∷ timed_out ∷ []

read-Served_example :
    Served 7 (pending init_iobuffer ++ available pieces) (read pieces init_iobuffer 7)
unfolding available
read-Served_example =
    read-Served pieces init_iobuffer 7 init_iobuffer-IsValid
      (omega arith, omega arith, (omega arith, omega arith, tt)) (omega arith) (omega arith)

readline-next_line_example :
    Reads []
      (next_line 1023 (pending init_iobuffer ++ available pieces))
      (readline pieces init_iobuffer 1023)
readline-next_line_example =
    readline-next_line pieces init_iobuffer 1023 init_iobuffer-IsValid
      (omega arith, omega arith, (omega arith, omega arith, tt))

abbrev sized : List ℕ → Frame
sized bytes = record { buf = bytes; tv_sec = 1; tv_usec = 2 }

-- A second frame that is larger than the first, and no memory for a third.
abbrev growing : List Round
growing =
    record { stop = false; frame = sized (1 ∷ []); memory = true; writes = 3 }
    ∷ record { stop = false; frame = sized (1 ∷ 2 ∷ 3 ∷ []); memory = true; writes = 3 }
    ∷ record { stop = false; frame = sized (1 ∷ 2 ∷ 3 ∷ 4 ∷ []); memory = false; writes = 3 }
    ∷ []

send_stream-CopiesFit_example : CopiesFit 0 (send_stream true growing)
send_stream-CopiesFit_example = send_stream-CopiesFit true growing
