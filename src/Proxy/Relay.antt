-- ===== src/Proxy/Relay.antt =====
-- From the server to the proxy: the parts that send_stream writes are the pictures that
-- extract_data hands on.
use raspberry_car.Base.{
  ℕ, ◌+◌, ◌-◌, ◌<◌, ◌≡◌, refl, ap, ◌∙◌, Bool, true, false, ◌&&◌, List, [], ◌∷◌, ◌++◌, append_assoc,
  map, ltb, length, All, arith, inl, inr, Bool-cases,
}
use raspberry_car.CString.{codes, is_digit}
use raspberry_car.Decimal.{
  decimal, decimal6, IsDigit, IsNumber, one, more, decimal-IsNumber, decimal6-IsNumber,
}
use raspberry_car.Http.Stream.{Frame, part_header, part_end, parts}
use raspberry_car.Proxy.{
  SearchPattern, search_pattern_compare, search_pattern_matches, search_pattern_reset, boundary,
  buffer_size, Extractor, init_extractor_state, push_byte, is_crlf, is_crlfcrlf, header_byte,
  extract_byte,
}
use raspberry_car.Proxy.Search.{Avoids}
use raspberry_car.Proxy.Header.{
  Flags, no_flags, scan, fires, scan_all, quiet, Tracks, Tracks-no_flags, Tracks-push,
  crlfcrlf-fires, like_cr, like_lf, and-ten, and-thirteen,
}
use raspberry_car.Proxy.Frame.{
  extract_all, extract_all-append, in_content, closing, image_of, extract_all-frame,
}

abbrev in_header : ℕ → SearchPattern → Extractor
in_header four p = record init_extractor_state { last_four_bytes = four; contentlength = p }

and-false : (b : Bool) → (b && false) ≡ false
and-false true = refl
and-false false = refl

digit-plain : (c : ℕ) → IsDigit c → (like_cr c ≡ false) × (like_lf c ≡ false) × (ltb c 128 ≡ true)
unfolding is_digit like_cr like_lf
digit-plain c h = ground (arith, and-thirteen c, and-ten c)

scan-digit : (f : Flags) (c : ℕ) → IsDigit c → scan f c ≡ no_flags
unfolding scan
scan-digit f c h = let d = digit-plain c h in rw (d.0, d.1, and-false f.one)

quiet-digit :
    (f : Flags) (c : ℕ) (rest : List ℕ) → IsDigit c → quiet f (c ∷ rest) ≡ quiet no_flags rest
unfolding quiet fires
quiet-digit f c rest h =
    let d = digit-plain c h in rw (scan-digit f c h, d.1, d.2, and-false f.three)

number-quiet :
    (ds rest : List ℕ) (f : Flags)
    → IsNumber ds
    → (quiet f (ds ++ rest) ≡ quiet no_flags rest)
      × (scan_all f (ds ++ rest) ≡ scan_all no_flags rest)
unfolding scan_all
number-quiet ds rest f (one {c} h) =
    (quiet-digit f c rest h, ap (λ g. scan_all g rest) (scan-digit f c h))
number-quiet ds rest f (more {c} {cs} h t) =
    let ih = number-quiet cs rest no_flags t in
    (
      quiet-digit f c (cs ++ rest) h ∙ ih.0,
      ap (λ g. scan_all g (cs ++ rest)) (scan-digit f c h) ∙ ih.1,
    )

-- The text of a part's header, with the line end before it, up to the line feed that ends it.
abbrev title : Frame → List ℕ
title f =
    codes "\r\nContent-Type: image/jpeg\r\nContent-Length: "
    ++ (decimal (length f.buf)
        ++ (codes "\r\nX-Timestamp: "
            ++ (decimal f.tv_sec ++ (codes "." ++ (decimal6 f.tv_usec ++ codes "\r\n\r")))))

title-quiet :
    (f : Frame)
    → (quiet no_flags (title f) ≡ true) × (fires (scan_all no_flags (title f)) 10 ≡ true)
unfolding quiet scan_all scan fires like_cr like_lf
title-quiet f =
    let last = codes "\r\n\r" in
    let third = codes "." ++ (decimal6 f.tv_usec ++ last) in
    let second = codes "\r\nX-Timestamp: " ++ (decimal f.tv_sec ++ third) in
    let flags : Flags = record { one = false; two = false; three = false } in
    let a = number-quiet (decimal (length f.buf)) second flags (decimal-IsNumber (length f.buf)) in
    let b = number-quiet (decimal f.tv_sec) third flags (decimal-IsNumber f.tv_sec) in
    let c = number-quiet (decimal6 f.tv_usec) last flags (decimal6-IsNumber f.tv_usec) in
    (a.0 ∙ b.0 ∙ c.0, ap (λ g. fires g 10) (a.1 ∙ b.1 ∙ c.1))

-- A frame that the proxy can take: the boundary does not stand in it, and it fits in the buffer
-- with the line end and the boundary behind it.
abbrev pub Relayable : Frame → Type 0
Relayable f = Avoids boundary f.buf × (length f.buf + 21 < buffer_size - 1)

abbrev pub line_end : List ℕ
line_end = 13 ∷ 10 ∷ []

module _ (sc : Bool) where
  -- A byte that does not end the header leaves the parser in it, whatever it does to the search for
  -- the length.
  header-stays :
      (x b : ℕ) (p : SearchPattern)
      → is_crlfcrlf (push_byte sc x b) ≡ false
      → (q : SearchPattern) × (header_byte sc (in_header x p) b ≡ in_header (push_byte sc x b) q)
  unfolding header_byte
  header-stays x b p h = elim (Bool-cases (is_crlf (push_byte sc x b))) [
    | inl line ↦ (search_pattern_reset p, rw (h, line))
    | inr inside ↦ elim (Bool-cases (search_pattern_matches (search_pattern_compare p b))) [
      | inl found ↦ (search_pattern_reset (search_pattern_compare p b), rw (h, inside, found))
      | inr open_ ↦ (search_pattern_compare p b, rw (h, inside, open_))
    ]
  ]

  header-ends :
      (x b : ℕ) (p : SearchPattern)
      → is_crlfcrlf (push_byte sc x b) ≡ true
      → header_byte sc (in_header x p) b ≡ in_content [] (push_byte sc x b) p 0
  unfolding header_byte
  header-ends x b p h = rw h

  -- What a text leaves behind in which the header does not end.
  record HeaderRun (x : ℕ) (p : SearchPattern) (f : Flags) (text : List ℕ) : Type 0 where
    four : ℕ
    pattern_ : SearchPattern
    run : extract_all sc (in_header x p) text ≡ (in_header four pattern_, [])
    tracks : Tracks four (scan_all f text)

  header-run :
      (text : List ℕ) (x : ℕ) (p : SearchPattern) (f : Flags)
      → Tracks x f
      → quiet f text ≡ true
      → HeaderRun x p f text
  unfolding extract_all extract_byte scan_all quiet
  header-run [] x p f t h = record { four = x; pattern_ = p; run = refl; tracks = t }
  header-run (b ∷ text) x p f t h =
      let ascii : b < 128 = ground arith in
      let silent : fires f b ≡ false = ground arith in
      let (q, e) = header-stays x b p (crlfcrlf-fires sc x b f ascii t ∙ silent) in
      let r =
        header-run text (push_byte sc x b) q (scan f b) (Tracks-push sc x b f ascii t)
          (ground arith) in
      record { four = r.four; pattern_ = r.pattern_; run = rw (e, r.run); tracks = r.tracks }

  -- A header, up to the line feed that ends it.
  pub header-done :
      (text : List ℕ) (x : ℕ) (p : SearchPattern) (f : Flags)
      → Tracks x f
      → quiet f text ≡ true
      → fires (scan_all f text) 10 ≡ true
      → (four : ℕ) × (q : SearchPattern) × (extract_all sc (in_header x p) (text ++ 10 ∷ [])
          ≡ (in_content [] four q 0, []))
  header-done text x p f t h k =
      let r = header-run text x p f t h in
      let ends =
        header-ends r.four 10 r.pattern_
          (crlfcrlf-fires sc r.four 10 (scan_all f text) (omega arith) r.tracks ∙ k) in
      (
        push_byte sc r.four 10,
        r.pattern_,
        rw (extract_all-append sc text (10 ∷ []) (in_header x p), r.run)
            (unfold extract_all extract_byte in rw ends),
      )

  regroup :
      (f : Frame) (rest : List ℕ)
      → line_end ++ (part_header f ++ (f.buf ++ (part_end ++ rest)))
        ≡ (title f ++ 10 ∷ []) ++ (((f.buf ++ closing) ++ b's' ∷ []) ++ (line_end ++ rest))
  unfolding part_header
  regroup f rest = simp append_assoc

  pub relay_parts :
      (fs : List Frame)
      → All Relayable fs
      → (s : Extractor) × (extract_all sc init_extractor_state (line_end ++ parts fs)
          ≡ (s, map (λ f. image_of f.buf) fs))
  unfolding parts
  relay_parts [] h =
      let r =
        header-run line_end 0 init_extractor_state.contentlength no_flags Tracks-no_flags
          (unfold quiet scan fires like_cr like_lf in refl) in
      (in_header r.four r.pattern_, r.run)
  relay_parts (f ∷ fs) h =
      let q = title-quiet f in
      let (four, p, head) =
        header-done (title f) 0 init_extractor_state.contentlength no_flags Tracks-no_flags q.0
          q.1 in
      let frame = extract_all-frame sc four p f.buf h.0.0 h.0.1 in
      let (s, rest) = relay_parts fs h.1 in
      (
        s,
        rw (regroup f (parts fs)) (
            rw
              (
                extract_all-append sc (title f ++ 10 ∷ [])
                    (((f.buf ++ closing) ++ b's' ∷ []) ++ (line_end ++ parts fs))
                    init_extractor_state,
                head,
              )
              (rw (
                extract_all-append sc ((f.buf ++ closing) ++ b's' ∷ []) (line_end ++ parts fs)
                    (in_content [] four p 0),
                frame,
                rest,
              ))),
      )
