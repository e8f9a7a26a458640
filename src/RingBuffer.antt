-- ===== src/RingBuffer.antt =====
-- plugins/output_file/output_file.c: the folder of pictures that the file output keeps.
pub mod Sorted
pub mod Bound
pub mod Due
pub mod Shared
pub mod Tests
use raspberry_car.Base.{
  ℕ, zero, suc, ◌+◌, ◌-◌, ◌%◌, ◌^◌, Bool, true, false, not, ◌||◌, List, [], ◌∷◌, ◌++◌, ◌==◌,
  if◌then◌else◌, take, drop, length, ltb,
}
use raspberry_car.Base.Int.{ℤ, pos, negsuc}

-- The names that `scandir` lists, in the order of `alphasort`.
abbrev pub Folder : Type 0
Folder = List (List ℕ)

-- `scanned` is what `sscanf` returns for a name and the pattern of the worker's files.
unfoldable pub check_for_filename : (List ℕ → ℕ) → List ℕ → Bool
check_for_filename scanned name = scanned name == 7

-- Whether `alphasort` puts a name before another one, in the locale "C" that the program runs in.
unfoldable pub sorts_before : List ℕ → List ℕ → Bool
sorts_before xs [] = false
sorts_before [] (y ∷ ys) = true
sorts_before (x ∷ xs) (y ∷ ys) = let rest = sorts_before xs ys in if x == y then rest else ltb x y

-- A file of this name is in the folder; it may have been there.
unfoldable pub inserted : List ℕ → Folder → Folder
unfolding sorts_before
inserted name [] = name ∷ []
inserted name (other ∷ names) =
    let rest = inserted name names in
    if sorts_before other name
    then other ∷ rest
    else if sorts_before name other
    then name ∷ other ∷ names
    else other ∷ names

-- What `scandir` lists behind the creation of a file.
unfoldable pub create_file : (List ℕ → ℕ) → List ℕ → Folder → Folder
unfolding check_for_filename inserted
create_file scanned name names =
    if check_for_filename scanned name then inserted name names else names

-- The files that stay when `unlink` is called on each.
unfoldable pub unlink_all : (List ℕ → Bool) → Folder → Folder
unlink_all unlinks [] = []
unlink_all unlinks (name ∷ names) =
    let rest = unlink_all unlinks names in if unlinks name then rest else name ∷ rest

-- `scans` says whether `scandir` succeeds, and `unlinks` whether `unlink` does.
unfoldable pub maintain_ringbuffer : Bool → (List ℕ → Bool) → ℤ → Folder → Folder
unfolding unlink_all
maintain_ringbuffer scans unlinks (negsuc n) names = names
maintain_ringbuffer scans unlinks (pos size) names =
    let old = length names - size in
    if scans then unlink_all unlinks (take old names) ++ drop old names else names

-- Whether the worker maintains the folder, with its counter behind a picture.
unfoldable pub is_due : ℤ → ℕ → Bool
is_due (negsuc n) counter = true
is_due (pos zero) counter = true
is_due (pos (suc n)) counter = counter == 1 || counter % (suc n + 1) == 0

pub record Worker : Type 0 where
  pub counter : ℕ
  pub names : Folder

-- A round of the loop that saves a picture, under a name that `strftime` makes of the clock's time
-- and `snprintf` of the counter.
unfoldable pub save_picture :
    (List ℕ → ℕ) → Bool → (List ℕ → Bool) → ℤ → ℤ → Worker → List ℕ → Worker
unfolding maintain_ringbuffer is_due create_file
save_picture scanned scans unlinks size exceed w name =
    let counter = (w.counter + 1) % 2 ^ 64 in
    let names = create_file scanned name w.names in
    record {
      counter = counter;
      names = if is_due exceed counter then maintain_ringbuffer scans unlinks size names else names;
    }

-- The loop, over the pictures that it saves until it is stopped or fails.
unfoldable pub worker_thread :
    (List ℕ → ℕ) → Bool → (List ℕ → Bool) → ℤ → ℤ → Worker → List (List ℕ) → Worker
unfolding save_picture
worker_thread scanned scans unlinks size exceed w [] = w
worker_thread scanned scans unlinks size exceed w (name ∷ names) =
    worker_thread scanned scans unlinks size exceed
      (save_picture scanned scans unlinks size exceed w name) names
