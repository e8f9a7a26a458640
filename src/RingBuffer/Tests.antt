-- ===== src/RingBuffer/Tests.antt =====
-- Runs of the worker.
use raspberry_car.Base.{ℕ, ◌+◌, ◌≡◌, ◌==◌, if◌then◌else◌, false, refl, true, List, [], ◌∷◌, ◌++◌}
use raspberry_car.Base.Int.{pos}
use raspberry_car.CString.{codes}
use raspberry_car.RingBuffer.{Folder, check_for_filename, sorts_before, worker_thread}
use raspberry_car.RingBuffer.Shared.{worker, Saving, Reach}
use raspberry_car.RingBuffer.Shared.Fits.{Fits, Reach-torn}
use raspberry_car.RingBuffer.Bound.{IsBounded, worker_thread-IsBounded}

-- The number of underscores of a name, for the names here the number of fields.
abbrev fields : List ℕ → ℕ
fields [] = 0
fields (c ∷ cs) = let more = fields cs in if c == b'_' then more + 1 else more

abbrev name_at : List ℕ → List ℕ
name_at second = codes "2024_01_02_03_04_" ++ second ++ codes "_picture_000000000.jpg"

abbrev old_pictures : Folder
old_pictures = name_at (codes "05") ∷ name_at (codes "06") ∷ []

abbrev new_pictures : Folder
new_pictures = name_at (codes "08") ∷ name_at (codes "09") ∷ []

worker_thread-IsBounded_example :
    IsBounded 2
      (pos 2)
      (worker_thread fields true
        (λ name. true)
        (pos 2)
        (pos 2)
        (record { counter = 0; names = old_pictures })
        (name_at (codes "07") ∷ new_pictures))
      ((old_pictures ++ name_at (codes "07") ∷ []) ++ new_pictures)
unfolding check_for_filename sorts_before
worker_thread-IsBounded_example =
    worker_thread-IsBounded fields (λ name. true) 2 (pos 2) old_pictures (name_at (codes "07"))
      new_pictures (λ name. refl) (refl, (refl, (refl, tt)))
      (
        (refl, (refl, (refl, (refl, tt)))),
        ((refl, (refl, (refl, tt))), ((refl, (refl, tt)), ((refl, tt), (tt, tt)))),
      )

Reach-torn_example :
    (s : Saving) × Reach true false s
    × (s.copies worker ≡ codes "first" ∷ [])
    × (s.files worker ≡ codes "other" ∷ [])
Reach-torn_example = Reach-torn (codes "first") (codes "other") refl
