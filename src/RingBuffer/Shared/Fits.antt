-- ===== src/RingBuffer/Shared/Fits.antt =====
-- The buffer that the worker and commands share: what is copied fits in it, and what goes wrong.
use raspberry_car.Base.{
  subst, sym, ℕ, ◌+◌, ◌-◌, ◌^◌, ◌≤◌, ◌≡◌, refl, ap, ◌∙◌, Bool, true, false, List, [], ◌∷◌, ◌++◌,
  Option, none, some, ltb, leb, take, drop, length, replicate, take-append, length-append,
  length-replicate, length-drop, Bool-cases, inl, inr, arith,
}
use raspberry_car.RingBuffer.Shared.{
  worker, taker, Saving, Copy, copied, no_memory, overrun, memcpy_at, extended, copy_picture, Step,
  copies_picture, gets_no_memory, writes_file, fails_to_write, Reach, first, next,
}

-- A copy that was made, inside the memory that it leaves.
pub record Fits (picture : List ℕ) (old : ℕ) (max : ℕ) (memory : List ℕ) : Type 0 where
  pub whole : take (length picture) memory ≡ picture
  pub size : length memory ≡ max
  pub room : length picture ≤ max
  pub grown : old ≤ max

memcpy_at-Fits :
    (old max : ℕ) (picture memory : List ℕ)
    → length memory ≡ max
    → length picture ≤ max
    → old ≤ max
    → (mem : List ℕ) × (memcpy_at max picture memory ≡ copied max mem) × Fits picture old max mem
memcpy_at-Fits old max picture memory size room grown =
    let fits : leb (length picture) (length memory) ≡ true = ground (arith, size, room) in
    let back = drop (length picture) memory in
    (
      picture ++ back,
      rw fits refl,
      record {
        whole = take-append picture back (length picture) refl;
        size =
            omega
              (arith, length-append picture back, length-drop (length picture) memory, size, room);
        room = room;
        grown = grown;
      },
    )

length-extended :
    (size : ℕ) (memory : List ℕ) → length memory ≤ size → length (extended size memory) ≡ size
length-extended size memory h = omega (
  arith,
  length-append memory (replicate (size - length memory) 0),
  length-replicate {A = ℕ} (size - length memory) 0,
)

copy_picture-Fits :
    (picture : List ℕ) (old : ℕ) (memory : List ℕ)
    → length memory ≡ old
    → (max : ℕ) × (mem : List ℕ) × (copy_picture true picture old memory ≡ copied max mem)
      × Fits picture old max mem
unfolding copy_picture
copy_picture-Fits picture old memory size = elim (Bool-cases (ltb old (length picture))) [
  | inl short ↦
      let longer = length picture + 2 ^ 16 in
      let (mem, e, fits) =
        memcpy_at-Fits old longer picture (extended longer memory)
          (length-extended longer memory (ground (arith, size))) (omega arith) (ground arith) in
      (longer, mem, rw short e, fits)
  | inr long ↦
      let (mem, e, fits) =
        memcpy_at-Fits old old picture memory size (ground arith) (omega arith) in
      (old, mem, rw long e, fits)
]

abbrev CopyFits : List ℕ → ℕ → Copy → Type 0
CopyFits picture old (copied max memory) = Fits picture old max memory
CopyFits picture old (no_memory max) = ⊥
CopyFits picture old overrun = ⊥

copied-Fits :
    (picture : List ℕ) (old max : ℕ) (memory mem : List ℕ)
    → length memory ≡ old
    → copy_picture true picture old memory ≡ copied max mem
    → Fits picture old max mem
copied-Fits picture old max memory mem size e =
    let (max', mem', made, fits) = copy_picture-Fits picture old memory size in
    subst (CopyFits picture old) e (subst (CopyFits picture old) (sym made) fits)

-- The bytes that a thread is still to write are among those of the memory.
abbrev pub Within : ℕ → Option ℕ → Type 0
Within max none = Unit {0}
Within max (some n) = n ≤ max

Within-grown : (old max : ℕ) (p : Option ℕ) → old ≤ max → Within old p → Within max p
Within-grown old max none grown h = tt
Within-grown old max (some n) grown h = omega arith

abbrev pub IsSound : Saving → Type 0
IsSound s =
    (length s.memory ≡ s.max_frame_size)
    × Within s.max_frame_size (s.pending worker)
    × Within s.max_frame_size (s.pending taker)

Step-IsSound : {takes : Bool} {s t : Saving} → Step takes false s t → IsSound s → IsSound t
Step-IsSound {s = s} (copies_picture worker picture max memory runs free e) h =
    let fits = copied-Fits picture s.max_frame_size max s.memory memory h.0 e in
    (fits.size, fits.room, Within-grown s.max_frame_size max (s.pending taker) fits.grown h.2)
Step-IsSound {s = s} (copies_picture taker picture max memory runs free e) h =
    let fits = copied-Fits picture s.max_frame_size max s.memory memory h.0 e in
    (fits.size, Within-grown s.max_frame_size max (s.pending worker) fits.grown h.1, fits.room)
Step-IsSound (gets_no_memory t picture max lacks runs free e) h = absurd (cc lacks)
Step-IsSound (writes_file worker n written e short) h = (h.0, tt, h.2)
Step-IsSound (writes_file taker n written e short) h = (h.0, h.1, tt)
Step-IsSound (fails_to_write worker n e) h = (h.0, tt, h.2)
Step-IsSound (fails_to_write taker n e) h = (h.0, h.1, tt)

pub Reach-IsSound : {takes : Bool} {s : Saving} → Reach takes false s → IsSound s
Reach-IsSound first = (refl, tt, tt)
Reach-IsSound (next r step) = Step-IsSound step (Reach-IsSound r)

-- A command that takes a picture between the worker's copy and its write changes what is written:
-- for any two pictures of the same length there is a run in which the worker copies the first, and
-- writes the second to its file.
pub Reach-torn :
    (f g : List ℕ)
    → length g ≡ length f
    → (s : Saving) × Reach true false s × (s.copies worker ≡ f ∷ []) × (s.files worker ≡ g ∷ [])
Reach-torn f g same =
    let (max, mem, copy_f, fits_f) = copy_picture-Fits f 0 [] refl in
    let (max', mem', copy_g, fits_g) = copy_picture-Fits g max mem fits_f.size in
    let r₁ = next first (copies_picture worker f max mem refl refl copy_f) in
    let r₂ = next r₁ (copies_picture taker g max' mem' refl refl copy_g) in
    (
      _,
      next r₂ (writes_file worker (length f) (length f) refl (omega arith)),
      refl,
      ap (λ (n : ℕ). take n mem' ∷ []) (sym same) ∙ ap (λ (l : List ℕ). l ∷ []) fits_g.whole,
    )
