-- ===== src/Proxy/Session.antt =====
-- A whole connection between send_stream and extract_data, and what stops the flow of pictures.
use raspberry_car.Base.{
  ℕ, ◌-◌, ◌≤◌, ◌≡◌, refl, Bool, true, false, not, ◌&&◌, List, [], ◌∷◌, ◌++◌, map, none, ◌==◌,
  get_or, length, All, arith,
}
use raspberry_car.CString.{codes}
use raspberry_car.Http.Stream.{
  Frame, parts, stream_header, send_stream, wire, undisturbed, wire-send_stream,
}
use raspberry_car.Proxy.{
  boundary, buffer_size, content, Extractor, init_extractor_state, content_byte, extract_byte,
  extract_data,
}
use raspberry_car.Proxy.Search.{advance, Free}
use raspberry_car.Proxy.Header.{
  no_flags, scan, fires, scan_all, quiet, Tracks-no_flags, like_cr, like_lf,
}
use raspberry_car.Proxy.Frame.{
  extract_all, extract_data-extract_all, extract_all-append, in_content, closing, image_of,
  extract_all-Free,
}
use raspberry_car.Proxy.Relay.{Relayable, line_end, header-done, relay_parts}

abbrev status_line : List ℕ
status_line = codes "HTTP/1.0 200 OK\r"

-- The header fields of the answer, up to the first of the two line ends behind them.
abbrev pub fields : List ℕ
fields =
    codes
      "Access-Control-Allow-Origin: *\r\nConnection: close\r\nServer: MJPG-Streamer/0.2\r\nCache-Control: no-store, no-cache, must-revalidate, pre-check=0, post-check=0, max-age=0\r\nPragma: no-cache\r\nExpires: Mon, 3 Jan 2000 12:34:56 GMT\r\nContent-Type: multipart/x-mixed-replace;boundary=boundarydonotcross\r\n"

header-regroup :
    (rest : List ℕ)
    → stream_header ++ rest
      ≡ (status_line ++ 10 ∷ []) ++ (((fields ++ closing) ++ b's' ∷ []) ++ (line_end ++ rest))
unfolding stream_header
header-regroup rest = refl

is_free : ℕ → List ℕ → Bool
unfolding advance
is_free k [] = true
is_free k (c ∷ cs) =
    not (get_or boundary (advance boundary k c) 0 == 0) && is_free (advance boundary k c) cs

is_free-Free : (k : ℕ) (text : List ℕ) → is_free k text ≡ true → Free boundary k text
unfolding is_free
is_free-Free k [] h = tt
is_free-Free k (c ∷ cs) h = (ground arith, is_free-Free (advance boundary k c) cs (ground arith))

fields-Free : Free boundary 0 fields
unfolding is_free
fields-Free = is_free-Free 0 fields refl

-- Over a connection on which nothing fails, the proxy hands on every frame that the server sends,
-- whole, once and in order, whatever its bytes, if the boundary does not stand in it and it fits in
-- the buffer; but the first picture that it hands on is not a frame: it is the header fields of the
-- answer, since "OK" with a line end behind it passes for the empty line that ends a header.
pub relay :
    (sc : Bool) (stop : ℕ → Bool) (fs : List Frame)
    → ((j : ℕ) → stop j ≡ false)
    → All Relayable fs
    → (extract_data sc stop 0 init_extractor_state (wire (send_stream true (map undisturbed fs)))).1
      ≡ image_of fields ∷ map (λ f. image_of f.buf) fs
relay sc stop fs never h =
    let (four, p, head) =
      header-done sc status_line 0 init_extractor_state.contentlength no_flags Tracks-no_flags
        (unfold quiet scan fires like_cr like_lf in refl)
        (unfold scan_all scan fires like_cr like_lf in refl) in
    let greeting = extract_all-Free sc four p fields fields-Free (omega arith) in
    let (s, rest) = relay_parts sc fs h in
    rw
      (extract_data-extract_all sc stop 0 init_extractor_state
        (wire (send_stream true (map undisturbed fs))) never)
      (rw (wire-send_stream fs, header-regroup (parts fs))
        (rw
          (
            extract_all-append sc (status_line ++ 10 ∷ [])
                (((fields ++ closing) ++ b's' ∷ []) ++ (line_end ++ parts fs)) init_extractor_state,
            head,
          )
          (rw (
            extract_all-append sc ((fields ++ closing) ++ b's' ∷ []) (line_end ++ parts fs)
                (in_content [] four p 0),
            greeting,
            rest,
          ))))

stalled-byte :
    (sc : Bool) (s : Extractor) (b : ℕ)
    → s.part ≡ content
    → buffer_size - 1 ≤ length s.buffer
    → extract_byte sc s.part s b ≡ (s, none)
unfolding extract_byte content_byte
stalled-byte sc s b c full = rw c (ground arith)

-- Once the buffer is full the parser is stuck: whatever bytes follow, a boundary among them, it
-- keeps its state and hands on nothing.
pub full_buffer_stalls :
    (sc : Bool) (s : Extractor) (bytes : List ℕ)
    → s.part ≡ content
    → buffer_size - 1 ≤ length s.buffer
    → extract_all sc s bytes ≡ (s, [])
unfolding extract_all
full_buffer_stalls sc s [] c full = refl
full_buffer_stalls sc s (b ∷ bytes) c full =
    rw (stalled-byte sc s b c full, full_buffer_stalls sc s bytes c full)
