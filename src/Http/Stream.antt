-- ===== src/Http/Stream.antt =====
-- send_stream: the endless answer with one part for each frame.
use raspberry_car.Base.{
  ℕ, zero, suc, ◌+◌, ◌*◌, ◌≤◌, ◌≡◌, refl, Bool, true, false, not, ◌&&◌, List, [], ◌∷◌, ◌++◌, ltb,
  if◌then◌else◌, length, map, arith, inl, inr, Bool-cases,
}
use raspberry_car.CString.{codes}
use raspberry_car.Decimal.{decimal, decimal6}

-- The frame in the global buffer of the input plugin.
pub record Frame : Type 0 where
  pub buf : List ℕ
  pub tv_sec : ℕ
  pub tv_usec : ℕ

-- One round of the loop: what `pglobal->stop` says before it, the frame that it wakes up to,
-- whether `realloc` gives memory, and how many of the round's three writes succeed.
pub record Round : Type 0 where
  pub stop : Bool
  pub frame : Frame
  pub memory : Bool
  pub writes : ℕ

-- What the thread does: it resizes its buffer, copies a frame of some size into it, writes to the
-- client, or sends an error.
pub data Act : Type 0 where
  resize : ℕ → Act
  copy : ℕ → Act
  write : List ℕ → Act
  send_error : ℕ → Act

abbrev pub ten_k : ℕ
ten_k = 10 * 1024

abbrev crlf : List ℕ
crlf = 13 ∷ 10 ∷ []

unfoldable pub part_header : Frame → List ℕ
part_header f =
    codes "Content-Type: image/jpeg\r\nContent-Length: "
    ++ (decimal (length f.buf)
        ++ (codes "\r\nX-Timestamp: "
            ++ (decimal f.tv_sec ++ (codes "." ++ (decimal6 f.tv_usec ++ codes "\r\n\r\n")))))

abbrev pub part_end : List ℕ
part_end = codes "\r\n--boundarydonotcross\r\n"

-- The three writes of a round, up to the first that fails; `rest` is the next round.
unfoldable pub send_part : Frame → ℕ → List Act → List Act
send_part f zero rest = []
send_part f (suc zero) rest = write (part_header f) ∷ []
send_part f (suc (suc zero)) rest = write (part_header f) ∷ write f.buf ∷ []
send_part f (suc (suc (suc n))) rest = write (part_header f) ∷ write f.buf ∷ write part_end ∷ rest

-- The loop of `send_stream`, with the size of the thread's buffer.
unfoldable pub send_rounds : ℕ → List Round → List Act
unfolding send_part
send_rounds max_frame_size [] = []
send_rounds max_frame_size (r ∷ rounds) =
    let frame_size = length r.frame.buf in
    let grow = ltb max_frame_size frame_size in
    let size = if grow then frame_size + ten_k else max_frame_size in
    let rest = send_rounds size rounds in
    let copied = copy frame_size ∷ send_part r.frame r.writes rest in
    if r.stop
    then []
    else if grow && not r.memory
    then send_error 500 ∷ []
    else if grow
    then resize size ∷ copied
    else copied

unfoldable pub stream_header : List ℕ
stream_header =
    codes
      "HTTP/1.0 200 OK\r\nAccess-Control-Allow-Origin: *\r\nConnection: close\r\nServer: MJPG-Streamer/0.2\r\nCache-Control: no-store, no-cache, must-revalidate, pre-check=0, post-check=0, max-age=0\r\nPragma: no-cache\r\nExpires: Mon, 3 Jan 2000 12:34:56 GMT\r\nContent-Type: multipart/x-mixed-replace;boundary=boundarydonotcross\r\n\r\n--boundarydonotcross\r\n"

-- `greeted` says whether the write of the header succeeds.
unfoldable pub send_stream : Bool → List Round → List Act
unfolding send_rounds stream_header
send_stream greeted rounds = if greeted then write stream_header ∷ send_rounds 0 rounds else []

-- Every copy fits in the buffer as it was last resized.
abbrev pub CopiesFit : ℕ → List Act → Type 0
CopiesFit size [] = Unit {0}
CopiesFit size (resize n ∷ acts) = CopiesFit n acts
CopiesFit size (copy n ∷ acts) = (n ≤ size) × CopiesFit size acts
CopiesFit size (write bytes ∷ acts) = CopiesFit size acts
CopiesFit size (send_error code ∷ acts) = CopiesFit size acts

send_part-CopiesFit :
    (f : Frame) (n size : ℕ) (rest : List Act)
    → CopiesFit size rest
    → CopiesFit size (send_part f n rest)
unfolding send_part
send_part-CopiesFit f zero size rest h = tt
send_part-CopiesFit f (suc zero) size rest h = tt
send_part-CopiesFit f (suc (suc zero)) size rest h = tt
send_part-CopiesFit f (suc (suc (suc n))) size rest h = h

send_rounds-CopiesFit : (rounds : List Round) (size : ℕ) → CopiesFit size (send_rounds size rounds)
unfolding send_rounds
send_rounds-CopiesFit [] size = tt
send_rounds-CopiesFit (r ∷ rounds) size =
    let n = length r.frame.buf in
    let grown =
      send_part-CopiesFit r.frame r.writes (n + ten_k) (send_rounds (n + ten_k) rounds)
        (send_rounds-CopiesFit rounds (n + ten_k)) in
    let kept =
      send_part-CopiesFit r.frame r.writes size (send_rounds size rounds)
        (send_rounds-CopiesFit rounds size) in
    elim (Bool-cases r.stop) [
      | inl stopped ↦ rw stopped tt
      | inr running ↦ rw running (elim (Bool-cases (ltb size n)) [
        | inl grow ↦ rw grow (elim (Bool-cases r.memory) [
          | inl enough ↦ rw enough (omega arith, grown)
          | inr full ↦ rw full tt
        ])
        | inr fits ↦ rw fits (ground arith, kept)
      ])
    ]

-- `send_stream` never copies a frame past the end of its buffer, however the frames grow, whichever
-- of its calls fail, and whenever it is stopped.
pub send_stream-CopiesFit :
    (greeted : Bool) (rounds : List Round) → CopiesFit 0 (send_stream greeted rounds)
unfolding send_stream
send_stream-CopiesFit true rounds = send_rounds-CopiesFit rounds 0
send_stream-CopiesFit false rounds = tt

-- The bytes that reach the client.
unfoldable pub wire : List Act → List ℕ
wire [] = []
wire (resize n ∷ acts) = wire acts
wire (copy n ∷ acts) = wire acts
wire (write bytes ∷ acts) = bytes ++ wire acts
wire (send_error code ∷ acts) = wire acts

unfoldable pub parts : List Frame → List ℕ
parts [] = []
parts (f ∷ fs) = part_header f ++ (f.buf ++ (part_end ++ parts fs))

-- A round in which nothing fails.
abbrev pub undisturbed : Frame → Round
undisturbed f = record { stop = false; frame = f; memory = true; writes = 3 }

wire-send_rounds :
    (fs : List Frame) (size : ℕ) → wire (send_rounds size (map undisturbed fs)) ≡ parts fs
unfolding wire send_rounds parts
wire-send_rounds [] size = refl
wire-send_rounds (f ∷ fs) size = elim (Bool-cases (ltb size (length f.buf))) [
  | inl grow ↦ rw (grow, wire-send_rounds fs (length f.buf + ten_k))
  | inr fits ↦ rw (fits, wire-send_rounds fs size)
]

pub wire-send_stream :
    (fs : List Frame) → wire (send_stream true (map undisturbed fs)) ≡ stream_header ++ parts fs
unfolding wire send_stream
wire-send_stream fs = rw (wire-send_rounds fs 0)
