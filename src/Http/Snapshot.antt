-- ===== src/Http/Snapshot.antt =====
-- send_snapshot: the answer with a single frame.
use raspberry_car.Base.{
  ℕ, zero, suc, ◌+◌, ◌≡◌, refl, Bool, true, false, List, [], ◌∷◌, ◌++◌, if◌then◌else◌, take, length,
  arith,
}
use raspberry_car.CString.{codes}
use raspberry_car.Decimal.{decimal, decimal6}
use raspberry_car.Http.Stream.{Frame, Act, resize, copy, write, send_error, CopiesFit, wire}

unfoldable pub snapshot_header : Frame → List ℕ
snapshot_header f =
    codes
      "HTTP/1.0 200 OK\r\nAccess-Control-Allow-Origin: *\r\nConnection: close\r\nServer: MJPG-Streamer/0.2\r\nCache-Control: no-store, no-cache, must-revalidate, pre-check=0, post-check=0, max-age=0\r\nPragma: no-cache\r\nExpires: Mon, 3 Jan 2000 12:34:56 GMT\r\nContent-type: image/jpeg\r\nX-Timestamp: "
    ++ (decimal f.tv_sec ++ (codes "." ++ (decimal6 f.tv_usec ++ codes "\r\n\r\n")))

-- The two writes, up to the first that fails.
unfoldable pub write_snapshot : Frame → ℕ → List Act
write_snapshot f zero = []
write_snapshot f (suc zero) = write (snapshot_header f) ∷ []
write_snapshot f (suc (suc n)) = write (snapshot_header f) ∷ write f.buf ∷ []

-- `memory` says whether `malloc` succeeds, and `writes` how many of the writes do. The allocation is
-- the resizing of an empty buffer.
unfoldable pub send_snapshot : Bool → ℕ → Frame → List Act
unfolding write_snapshot
send_snapshot memory writes f =
    let size = length f.buf in
    if memory then resize (size + 1) ∷ copy size ∷ write_snapshot f writes else send_error 500 ∷ []

-- One text after the other.
unfoldable pub join : List (List ℕ) → List ℕ
join [] = []
join (text ∷ texts) = text ++ join texts

write_snapshot-CopiesFit : (f : Frame) (writes size : ℕ) → CopiesFit size (write_snapshot f writes)
unfolding write_snapshot
write_snapshot-CopiesFit f zero size = tt
write_snapshot-CopiesFit f (suc zero) size = tt
write_snapshot-CopiesFit f (suc (suc n)) size = tt

wire-write_snapshot :
    (f : Frame) (writes : ℕ)
    → wire (write_snapshot f writes) ≡ join (take writes (snapshot_header f ∷ f.buf ∷ []))
unfolding wire write_snapshot join
wire-write_snapshot f zero = refl
wire-write_snapshot f (suc zero) = refl
wire-write_snapshot f (suc (suc zero)) = refl
wire-write_snapshot f (suc (suc (suc n))) = refl

-- `send_snapshot` never copies a frame past the end of the buffer that it allocates, and its client
-- gets the header and the frame, up to the first write that fails, and nothing of them where there
-- is no memory.
pub send_snapshot_lem :
    (memory : Bool) (writes : ℕ) (f : Frame)
    → CopiesFit 0 (send_snapshot memory writes f)
      × (wire (send_snapshot memory writes f)
          ≡ join (take (if memory then writes else 0) (snapshot_header f ∷ f.buf ∷ [])))
unfolding send_snapshot wire join
send_snapshot_lem true writes f = (
  (omega arith, write_snapshot-CopiesFit f writes (length f.buf + 1)),
  wire-write_snapshot f writes,
)
send_snapshot_lem false writes f = (tt, refl)
