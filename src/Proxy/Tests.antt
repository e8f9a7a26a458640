-- ===== src/Proxy/Tests.antt =====
-- Runs of the proxy.
use raspberry_car.Base.{
  ℕ, ◌≤◌, ◌<◌, ◌≡◌, refl, ap, true, false, List, [], ◌∷◌, ◌++◌, map, length, length-append,
  replicate, length-replicate, arith,
}
use raspberry_car.CString.{codes}
use raspberry_car.Http.Stream.{Frame, send_stream, wire, undisturbed}
use raspberry_car.Proxy.{boundary, content, Extractor, init_extractor_state, extract_data}
use raspberry_car.Proxy.Search.{Avoids}
use raspberry_car.Proxy.Frame.{image_of}
use raspberry_car.Proxy.Session.{fields, relay}

abbrev two_frames : List Frame
two_frames =
    record { buf = codes "--boundary"; tv_sec = 12; tv_usec = 345 }
    ∷ record { buf = 255 ∷ 216 ∷ 0 ∷ 13 ∷ 10 ∷ []; tv_sec = 13; tv_usec = 0 }
    ∷ []

short-Avoids : (text : List ℕ) → length text < length boundary → Avoids boundary text
short-Avoids text h before after e = omega (
  arith,
  ap (λ (l : List ℕ). length l) e,
  length-append before (boundary ++ after),
  length-append boundary after,
)

relay_example :
    (extract_data true
      (λ j. false)
      0
      init_extractor_state
      (wire (send_stream true (map undisturbed two_frames)))).1
    ≡ image_of fields ∷ map (λ f. image_of f.buf) two_frames
relay_example =
    relay true (λ j. false) two_frames (λ j. refl)
      (
        (short-Avoids (codes "--boundary") (omega arith), omega arith),
        ((short-Avoids (255 ∷ 216 ∷ 0 ∷ 13 ∷ 10 ∷ []) (omega arith), omega arith), tt),
      )

full_of : ℕ → Extractor
full_of n = record init_extractor_state { buffer = replicate n 0; part = content }

full_of-content : (n : ℕ) → (full_of n).part ≡ content
unfolding full_of
full_of-content n = refl

length-full_of : (n : ℕ) → n ≤ length (full_of n).buffer
unfolding full_of
length-full_of n = omega (arith, length-replicate {A = ℕ} n 0)
