-- ===== src/RingBuffer/Shared.antt =====
-- plugins/output_file/output_file.c: the buffer `frame`, in which worker_thread and the command
-- OUT_FILE_CMD_TAKE of output_cmd both keep the picture that they save. The lock `db` protects the
-- copy, but not the call of write that follows.
pub mod Fits
use raspberry_car.Base.{
  subst, sym, ℕ, ◌+◌, ◌-◌, ◌^◌, ◌≤◌, ◌<◌, ◌≡◌, refl, ap, ◌∙◌, Bool, true, false, List, [], ◌∷◌,
  ◌++◌, Option, none, some, ltb, leb, if◌then◌else◌, take, drop, length, replicate, take-append,
  length-append, length-replicate, length-drop, Bool-cases, inl, inr, arith,
}

-- worker_thread, or the thread that gives the command.
pub data Thread : Type 0 where
  worker taker : Thread

-- A value for a thread.
abbrev pub put {ℓ} : {A : Type ℓ} → Thread → A → (Thread → A) → Thread → A
put worker a f worker = a
put worker a f taker = f taker
put taker a f worker = f worker
put taker a f taker = a

-- The memory at `frame`, and `max_frame_size`; for each thread the number of bytes that it has
-- copied and not yet written, the pictures that it has copied, the files that it has written, and
-- whether it has returned with an error. (Another command may be given behind one that fails.)
pub record Saving : Type 0 where
  pub memory : List ℕ
  pub max_frame_size : ℕ
  pub pending : Thread → Option ℕ
  pub copies : Thread → List (List ℕ)
  pub files : Thread → List (List ℕ)
  pub ended : Bool

-- The copy of a picture: `max_frame_size` and the memory behind it, no memory (with
-- `max_frame_size`), or a write past the end of the memory.
pub data Copy : Type 0 where
  copied : ℕ → List ℕ → Copy
  no_memory : ℕ → Copy
  overrun : Copy

abbrev pub memcpy_at : ℕ → List ℕ → List ℕ → Copy
memcpy_at max picture memory =
    if leb (length picture) (length memory)
    then copied max (picture ++ drop (length picture) memory)
    else overrun

-- `realloc` to more bytes.
abbrev pub extended : ℕ → List ℕ → List ℕ
extended size memory = memory ++ replicate (size - length memory) 0

-- `reallocs` says whether `realloc` gives memory.
unfoldable pub copy_picture : Bool → List ℕ → ℕ → List ℕ → Copy
copy_picture reallocs picture max memory =
    let size = length picture + 2 ^ 16 in
    if ltb max (length picture)
    then (if reallocs then memcpy_at size picture (extended size memory) else no_memory size)
    else memcpy_at max picture memory

-- Whether a thread runs: the command is given only if `takes`, the worker only until it returns.
abbrev pub Runs : Bool → Bool → Thread → Type 0
Runs takes ended worker = ended ≡ false
Runs takes ended taker = takes ≡ true

abbrev pub ended_by : Thread → Bool → Bool
ended_by worker ended = true
ended_by taker ended = ended

-- A thread copies a picture from the global buffer, under the lock, or gets no memory for it (only
-- where `lacks`); it writes what it has copied to a file of its own, of which the system may take
-- only the first bytes; or it cannot open or write the file.
pub data Step (takes lacks : Bool) (s : Saving) : Saving → Type 0 where
  copies_picture :
      (t : Thread) (picture : List ℕ) (max : ℕ) (memory : List ℕ)
      → Runs takes s.ended t
      → s.pending t ≡ none
      → copy_picture true picture s.max_frame_size s.memory ≡ copied max memory
      → Step takes lacks s (record s {
        memory = memory;
        max_frame_size = max;
        pending = put t (some (length picture)) s.pending;
        copies = put t (s.copies t ++ picture ∷ []) s.copies;
      })
  gets_no_memory :
      (t : Thread) (picture : List ℕ) (max : ℕ)
      → lacks ≡ true
      → Runs takes s.ended t
      → s.pending t ≡ none
      → copy_picture false picture s.max_frame_size s.memory ≡ no_memory max
      → Step takes lacks s (record s { max_frame_size = max; ended = ended_by t s.ended })
  writes_file :
      (t : Thread) (n written : ℕ)
      → s.pending t ≡ some n
      → written ≤ n
      → Step takes lacks s (record s {
        pending = put t none s.pending;
        files = put t (s.files t ++ take written s.memory ∷ []) s.files;
      })
  fails_to_write :
      (t : Thread) (n : ℕ)
      → s.pending t ≡ some n
      → Step takes lacks s (record s { pending = put t none s.pending; ended = ended_by t s.ended })

abbrev pub begin : Saving
begin = record {
  memory = [];
  max_frame_size = 0;
  pending = λ t. none;
  copies = λ t. [];
  files = λ t. [];
  ended = false;
}

pub data Reach (takes lacks : Bool) : Saving → Type 0 where
  first : Reach takes lacks begin
  next : {s t : Saving} → Reach takes lacks s → Step takes lacks s t → Reach takes lacks t
