-- ===== src/RingBuffer/Bound.antt =====
-- How many pictures the folder holds, and which.
use native.Mathlib.Nat.{zero-mod}
use raspberry_car.Base.{
  ℕ, suc, ◌+◌, ◌-◌, ◌%◌, ◌^◌, ◌<◌, ◌≤◌, ◌≡◌, refl, sym, ap, ◌∙◌, subst, Bool, true, false, List, [],
  ◌∷◌, ◌++◌, drop, length, length-drop, length-append, append_assoc, append-nil, drop-drop, inl,
  inr, Bool-cases, drop-append_le, All, arith,
}
use raspberry_car.Base.Int.{ℤ, pos}
use raspberry_car.RingBuffer.{
  Folder, check_for_filename, create_file, is_due, Worker, save_picture, worker_thread,
}
use raspberry_car.RingBuffer.Sorted.{
  Ascending, Before, Ascending-Before, Before-drop, create_file-last,
}
use raspberry_car.RingBuffer.Due.{
  slack, maintain_ringbuffer-drop, next-mod, is_due-not, is_due-first, next_counter,
}

-- The folder holds the most recent of all pictures, and not too many.
pub record IsBounded (size : ℕ) (exceed : ℤ) (w : Worker) (all : Folder) : Type 0 where
  pub small : w.counter < 2 ^ 64
  pub few : length w.names ≤ size + w.counter % suc (slack exceed)
  pub old : ℕ
  pub within : old ≤ length all
  pub recent : w.names ≡ drop old all

module _ (scanned : List ℕ → ℕ) (unlinks : List ℕ → Bool)
    (good : (name : List ℕ) → unlinks name ≡ true) (size : ℕ) (exceed : ℤ) where
  save_picture-due :
      (w : Worker) (name : List ℕ)
      → create_file scanned name w.names ≡ w.names ++ name ∷ []
      → is_due exceed ((w.counter + 1) % 2 ^ 64) ≡ true
      → (save_picture scanned true unlinks (pos size) exceed w name).names
        ≡ drop (length (w.names ++ name ∷ []) - size) (w.names ++ name ∷ [])
  unfolding save_picture
  save_picture-due w name last due =
      rw last (rw due (maintain_ringbuffer-drop unlinks size (w.names ++ name ∷ []) good))

  save_picture-rests :
      (w : Worker) (name : List ℕ)
      → create_file scanned name w.names ≡ w.names ++ name ∷ []
      → is_due exceed ((w.counter + 1) % 2 ^ 64) ≡ false
      → (save_picture scanned true unlinks (pos size) exceed w name).names ≡ w.names ++ name ∷ []
  unfolding save_picture
  save_picture-rests w name last rests = rw last (rw rests refl)

  save_picture-counter :
      (w : Worker) (name : List ℕ)
      → (save_picture scanned true unlinks (pos size) exceed w name).counter
        ≡ (w.counter + 1) % 2 ^ 64
  unfolding save_picture
  save_picture-counter w name = refl

  -- What `recent` says, behind one more picture.
  recent_next :
      (w : Worker) (all : Folder) (name : List ℕ) (old : ℕ)
      → old ≤ length all
      → w.names ≡ drop old all
      → w.names ++ name ∷ [] ≡ drop old (all ++ name ∷ [])
  recent_next w all name old within recent =
      ap (λ (l : Folder). l ++ name ∷ []) recent ∙ sym (drop-append_le all (name ∷ []) old within)

  due-IsBounded :
      (w : Worker) (all : Folder) (name : List ℕ) (old : ℕ)
      → old ≤ length all
      → w.names ≡ drop old all
      → create_file scanned name w.names ≡ w.names ++ name ∷ []
      → is_due exceed ((w.counter + 1) % 2 ^ 64) ≡ true
      → IsBounded size exceed
          (save_picture scanned true unlinks (pos size) exceed w name)
          (all ++ name ∷ [])
  due-IsBounded w all name old within recent last due =
      let next = w.names ++ name ∷ [] in
      let e = save_picture-due w name last due in
      let r = recent_next w all name old within recent in
      let cut = length next - size in
      record {
        small = omega (arith, save_picture-counter w name);
        few = omega (arith, ap (λ (l : Folder). length l) e, length-drop cut next);
        old = old + cut;
        within = omega (
          arith,
          ap (λ (l : Folder). length l) r,
          length-drop old (all ++ name ∷ []),
          length-append all (name ∷ []),
        );
        recent = e ∙ ap (λ (l : Folder). drop cut l) r ∙ sym (drop-drop (all ++ name ∷ []) old cut);
      }

  rests-few :
      (w : Worker) (all : Folder) (name : List ℕ)
      → IsBounded size exceed w all
      → is_due exceed ((w.counter + 1) % 2 ^ 64) ≡ false
      → suc (w.counter % suc (slack exceed)) ≡ (w.counter + 1) % 2 ^ 64 % suc (slack exceed)
  rests-few w all name b rests =
      let m = slack exceed in
      let nonzero = is_due-not exceed ((w.counter + 1) % 2 ^ 64) rests in
      elim (next_counter w.counter b.small) [
        | inl wrapped ↦ absurd (nonzero (ap (λ (d : ℕ). d % suc m) wrapped ∙ zero-mod (suc m)))
        | inr counted ↦ elim (next-mod w.counter m) [
          | inl due ↦ absurd (nonzero (ap (λ (d : ℕ). d % suc m) counted ∙ due))
          | inr more ↦ sym (ap (λ (d : ℕ). d % suc m) counted ∙ more)
        ]
      ]

  rests-IsBounded :
      (w : Worker) (all : Folder) (name : List ℕ)
      → IsBounded size exceed w all
      → create_file scanned name w.names ≡ w.names ++ name ∷ []
      → is_due exceed ((w.counter + 1) % 2 ^ 64) ≡ false
      → IsBounded size exceed
          (save_picture scanned true unlinks (pos size) exceed w name)
          (all ++ name ∷ [])
  rests-IsBounded w all name b last rests =
      let e = save_picture-rests w name last rests in
      let counter = save_picture-counter w name in
      record {
        small = omega (arith, counter);
        few = omega (
          arith,
          ap (λ (l : Folder). length l) e,
          length-append w.names (name ∷ []),
          b.few,
          rests-few w all name b rests,
          ap (λ (d : ℕ). d % suc (slack exceed)) counter,
        );
        old = b.old;
        within = omega (arith, b.within, length-append all (name ∷ []));
        recent = e ∙ recent_next w all name b.old b.within b.recent;
      }

  save_picture-IsBounded :
      (w : Worker) (all : Folder) (name : List ℕ)
      → IsBounded size exceed w all
      → check_for_filename scanned name ≡ true
      → Before name all
      → IsBounded size exceed
          (save_picture scanned true unlinks (pos size) exceed w name)
          (all ++ name ∷ [])
  save_picture-IsBounded w all name b listed before =
      let last : create_file scanned name w.names ≡ w.names ++ name ∷ [] =
        create_file-last scanned name w.names listed
          (subst (Before name) (sym b.recent) (Before-drop b.old name all before)) in
      elim (Bool-cases (is_due exceed ((w.counter + 1) % 2 ^ 64))) [
        | inl due ↦ due-IsBounded w all name b.old b.within b.recent last due
        | inr rests ↦ rests-IsBounded w all name b last rests
      ]

  worker_thread-kept :
      (names all : Folder) (w : Worker)
      → IsBounded size exceed w all
      → All (λ name. check_for_filename scanned name ≡ true) names
      → Ascending (all ++ names)
      → IsBounded size exceed
          (worker_thread scanned true unlinks (pos size) exceed w names)
          (all ++ names)
  unfolding worker_thread
  worker_thread-kept [] all w b listed sorted = rw append-nil b
  worker_thread-kept (name ∷ names) all w b listed sorted =
      subst
        (IsBounded size exceed (
          worker_thread scanned true unlinks (pos size) exceed
            (save_picture scanned true unlinks (pos size) exceed w name) names))
        (append_assoc all (name ∷ []) names)
        (worker_thread-kept names (all ++ name ∷ [])
          (save_picture scanned true unlinks (pos size) exceed w name)
          (save_picture-IsBounded w all name b listed.0 (Ascending-Before all name names sorted))
          listed.1 (subst Ascending (sym (append_assoc all (name ∷ []) names)) sorted))

-- Where the folder can be listed and its files removed, the worker's folder is, behind its first
-- picture and behind every later one, a last part of the pictures that were there before it and of
-- those that it saved, in order; and it holds at most `size` pictures and the remainder of the
-- counter by `exceed` + 1 more (by 1, so none, if `exceed` is not positive), however many it held at
-- first. The conditions: the names that the worker makes are of its own pattern, and each sorts
-- behind all that were there before it (so the clock does not go back, nor start too early).
pub worker_thread-IsBounded :
    (scanned : List ℕ → ℕ) (unlinks : List ℕ → Bool) (size : ℕ) (exceed : ℤ) (before : Folder)
    (name : List ℕ) (names : Folder)
    → ((name : List ℕ) → unlinks name ≡ true)
    → All (λ n. check_for_filename scanned n ≡ true) (name ∷ names)
    → Ascending ((before ++ name ∷ []) ++ names)
    → IsBounded size exceed
        (worker_thread scanned true unlinks
          (pos size)
          exceed
          (record { counter = 0; names = before })
          (name ∷ names))
        ((before ++ name ∷ []) ++ names)
unfolding worker_thread
worker_thread-IsBounded scanned unlinks size exceed before name names good listed sorted =
    let w : Worker = record { counter = 0; names = before } in
    let order : Before name before =
      Ascending-Before before name names
        (subst Ascending (append_assoc before (name ∷ []) names) sorted) in
    let last : create_file scanned name before ≡ before ++ name ∷ [] =
      create_file-last scanned name before listed.0 order in
    worker_thread-kept scanned unlinks good size exceed names (before ++ name ∷ [])
      (save_picture scanned true unlinks (pos size) exceed w name)
      (due-IsBounded scanned unlinks good size exceed w before name 0 (omega arith) refl last
        (is_due-first exceed))
      listed.1 sorted
