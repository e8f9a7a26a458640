-- ===== src/RingBuffer/Sorted.antt =====
-- The order of the names in the folder.
use raspberry_car.Base.{ℕ, zero, suc, ◌≡◌, refl, ap, true, List, [], ◌∷◌, ◌++◌, All, drop}
use raspberry_car.RingBuffer.{Folder, check_for_filename, sorts_before, inserted, create_file}

-- Each name sorts before all those behind it.
abbrev pub Ascending : Folder → Type 0
Ascending [] = Unit {0}
Ascending (name ∷ names) =
    All (λ (other : List ℕ). sorts_before name other ≡ true) names × Ascending names

-- Names that sort before this one.
abbrev pub Before : List ℕ → Folder → Type 0
Before name names = All (λ (other : List ℕ). sorts_before other name ≡ true) names

All-middle :
    (first : List ℕ) (xs : Folder) (name : List ℕ) (ys : Folder)
    → All (λ (other : List ℕ). sorts_before first other ≡ true) (xs ++ name ∷ ys)
    → sorts_before first name ≡ true
All-middle first [] name ys h = h.0
All-middle first (x ∷ xs) name ys h = All-middle first xs name ys h.1

pub Ascending-Before :
    (xs : Folder) (name : List ℕ) (ys : Folder) → Ascending (xs ++ name ∷ ys) → Before name xs
Ascending-Before [] name ys h = tt
Ascending-Before (x ∷ xs) name ys h = (All-middle x xs name ys h.0, Ascending-Before xs name ys h.1)

pub Before-drop : (n : ℕ) (name : List ℕ) (xs : Folder) → Before name xs → Before name (drop n xs)
Before-drop zero name xs h = h
Before-drop (suc n) name [] h = tt
Before-drop (suc n) name (x ∷ xs) h = Before-drop n name xs h.1

inserted-last :
    (name : List ℕ) (names : Folder) → Before name names → inserted name names ≡ names ++ name ∷ []
unfolding inserted
inserted-last name [] h = refl
inserted-last name (other ∷ names) h = rw h.0 (ap (◌∷◌ other) (inserted-last name names h.1))

-- A file that sorts behind all others is the last.
pub create_file-last :
    (scanned : List ℕ → ℕ) (name : List ℕ) (names : Folder)
    → check_for_filename scanned name ≡ true
    → Before name names
    → create_file scanned name names ≡ names ++ name ∷ []
unfolding create_file
create_file-last scanned name names h before = rw h (inserted-last name names before)
