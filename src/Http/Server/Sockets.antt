-- ===== src/Http/Server/Sockets.antt =====
-- The sockets behind the loop over the addresses.
use raspberry_car.Base.{
  ℕ, zero, suc, ◌+◌, ◌-◌, ◌≡◌, refl, subst, sym, ap, ap₂, ◌∙◌, true, false, List, [], ◌∷◌, ◌++◌,
  append-nil, append_assoc, Option, none, some, map, min, leb, ltb, set, take, length,
  length-append, replicate, arith,
}
use raspberry_car.Http.Server.{
  max_sd_len, Opening, no_socket, unbound, deaf, listening, Sockets, open_loop, open_sockets,
}

-- The descriptors of the sockets that listen, in the order of the addresses.
abbrev pub descriptors : List Opening → List ℕ
descriptors [] = []
descriptors (listening fd ∷ openings) = fd ∷ descriptors openings
descriptors (no_socket ∷ openings) = descriptors openings
descriptors (unbound ∷ openings) = descriptors openings
descriptors (deaf ∷ openings) = descriptors openings

-- The array with these descriptors in front and -1 in the other places.
abbrev pub filled : List ℕ → ℕ → Sockets
filled fds n = map some fds ++ replicate n none

-- A write to the first place behind the descriptors.
set-filled :
    (fds : List ℕ) (n : ℕ) (v : Option ℕ)
    → set (filled fds (suc n)) (length fds) v ≡ map some fds ++ v ∷ replicate n none
set-filled [] n v = refl
set-filled (fd ∷ fds) n v = ap (◌∷◌ (some fd)) (set-filled fds n v)

filled-snoc :
    (fds : List ℕ) (n fd : ℕ)
    → map some fds ++ some fd ∷ replicate n none ≡ filled (fds ++ fd ∷ []) n
filled-snoc [] n fd = refl
filled-snoc (g ∷ fds) n fd = ap (◌∷◌ (some g)) (filled-snoc fds n fd)

-- The array and the number for these descriptors.
abbrev Left : List ℕ → Option (Sockets × ℕ) → Type 0
Left all r = r ≡ some (filled all (max_sd_len - length all), min (max_sd_len - 1) (length all))

-- What the loop leaves when `fds` were opened before it, with `suc n` places left.
abbrev Opened : List ℕ → ℕ → List Opening → Option (Sockets × ℕ) → Type 0
Opened fds n openings r = Left (fds ++ take (suc n) (descriptors openings)) r

unopened :
    (fds : List ℕ) (n : ℕ) (openings : List Opening)
    → Opened fds n openings (open_loop (filled fds (suc n)) (length fds) openings)
    → Opened fds n openings
        (open_loop (set (filled fds (suc n)) (length fds) none) (length fds) openings)
unopened fds n openings h =
    subst (λ sd. Opened fds n openings (open_loop sd (length fds) openings))
      (sym (set-filled fds n none)) h

-- The last place is taken.
Left-last :
    (fds : List ℕ) (fd : ℕ)
    → length fds + 1 ≡ max_sd_len
    → Left (fds ++ fd ∷ []) (some (set (filled fds 1) (length fds) (some fd), length fds))
Left-last fds fd h =
    let size = length-append fds (fd ∷ []) in
    let none_left : 0 ≡ max_sd_len - length (fds ++ fd ∷ []) = omega (arith, size) in
    let last : length fds ≡ min (max_sd_len - 1) (length (fds ++ fd ∷ [])) = omega (arith, size) in
    ap₂ (λ (sd : Sockets) (i : ℕ). some (sd, i))
      (set-filled fds 0 (some fd) ∙ filled-snoc fds 0 fd ∙ ap (filled (fds ++ fd ∷ [])) none_left)
      last

Opened-next :
    (fds : List ℕ) (fd n : ℕ) (openings : List Opening)
    → Opened
        (fds ++ fd ∷ [])
        n
        openings
        (open_loop (filled (fds ++ fd ∷ []) (suc n)) (length (fds ++ fd ∷ [])) openings)
    → Left (fds ++ fd ∷ take (suc n) (descriptors openings)) (
        open_loop (set (filled fds (suc (suc n))) (length fds) (some fd)) (length fds + 1) openings)
Opened-next fds fd n openings h =
    let array = set-filled fds (suc n) (some fd) ∙ filled-snoc fds (suc n) fd in
    let size = length-append fds (fd ∷ []) in
    subst
      (λ all. Left all (
        open_loop (set (filled fds (suc (suc n))) (length fds) (some fd)) (length fds + 1)
          openings))
      (append_assoc fds (fd ∷ []) (take (suc n) (descriptors openings)))
      (subst (λ sd. Opened (fds ++ fd ∷ []) n openings (open_loop sd (length fds + 1) openings))
        (sym array)
        (subst
          (λ i.
            Opened (fds ++ fd ∷ []) n openings
              (open_loop (filled (fds ++ fd ∷ []) (suc n)) i openings))
          size h))

-- There is a place for the next socket.
room : (fds : List ℕ) (n : ℕ) → ltb (length fds) (length (filled fds (suc n))) ≡ true
room [] n = ground arith
room (fd ∷ fds) n = let more = room fds n in ground (arith, more)

open_loop-Opened :
    (fds : List ℕ) (n : ℕ) (openings : List Opening)
    → length fds + suc n ≡ max_sd_len
    → Opened fds n openings (open_loop (filled fds (suc n)) (length fds) openings)
unfolding open_loop
open_loop-Opened fds n [] h =
    let left : suc n ≡ max_sd_len - length fds = omega arith in
    let number : length fds ≡ min (max_sd_len - 1) (length fds) = omega arith in
    rw (append-nil fds) (ap₂ (λ (sd : Sockets) (i : ℕ). some (sd, i)) (ap (filled fds) left) number)
open_loop-Opened fds n (no_socket ∷ openings) h =
    rw (room fds n) (unopened fds n openings (open_loop-Opened fds n openings h))
open_loop-Opened fds n (unbound ∷ openings) h =
    rw (room fds n) (unopened fds n openings (open_loop-Opened fds n openings h))
open_loop-Opened fds n (deaf ∷ openings) h =
    rw (room fds n) (unopened fds n openings (open_loop-Opened fds n openings h))
open_loop-Opened fds zero (listening fd ∷ openings) h =
    let last : leb max_sd_len (length fds + 1) ≡ true = ground arith in
    rw (room fds 0, last) (Left-last fds fd h)
open_loop-Opened fds (suc n) (listening fd ∷ openings) h =
    let not_last : leb max_sd_len (length fds + 1) ≡ false = ground arith in
    let size = length-append fds (fd ∷ []) in
    rw (room fds (suc n), not_last)
      (Opened-next fds fd n openings
        (open_loop-Opened (fds ++ fd ∷ []) n openings (omega (arith, size))))

-- The array holds the descriptors of the sockets that listen, the first fifty of them, in the order
-- of the addresses, and -1 in each other place: also where a socket could not be bound or made to
-- listen. No write falls behind the array. `sd_len` is their number, but 49 for all fifty.
pub open_sockets_lem :
    (openings : List Opening)
    → let fds = take max_sd_len (descriptors openings) in
      open_sockets openings
      ≡ some (
        map (λ fd. some fd) fds ++ replicate (max_sd_len - length fds) none,
        min (max_sd_len - 1) (length fds),
      )
unfolding open_sockets
open_sockets_lem openings = open_loop-Opened [] 49 openings (omega arith)
