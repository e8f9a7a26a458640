-- ===== src/Http/Json/Shown.antt =====
-- The formats that the code can describe, and their resolutions.
use raspberry_car.Base.{ℕ, ◌<◌, ◌≡◌, refl, List, [], ◌∷◌, some, All, length, arith}
use raspberry_car.CString.{codes}
use raspberry_car.Http.Json.Input.{InputFormat, Resolution, resolutions_string, with_resolutions}
use raspberry_car.Http.Json.Strings.{Plain}
use raspberry_car.Http.Json.Members.{members_text}
use raspberry_car.Http.Json.Resolutions.{Small, resolution_members, resolutions_from_lem}

-- A format that the code can write.
pub record GoodFormat (f : InputFormat) : Type 0 where
  pub plain : Plain f.description
  pub first : Resolution
  pub others : List Resolution
  pub some_resolution : f.resolutions ≡ first ∷ others
  pub small : All Small (first ∷ others)
  pub not_many : length others < 100000

abbrev pub resolutions_of : InputFormat → List ℕ
resolutions_of f = members_text (codes ", ") (resolution_members 0 f.resolutions) []

resolutions_string_good :
    (f : InputFormat) → GoodFormat f → resolutions_string f.resolutions ≡ some (resolutions_of f)
unfolding resolutions_string
resolutions_string_good f g = rw g.some_resolution (
    resolutions_from_lem 0 [] 0 (g.first ∷ g.others) (omega arith) (omega (arith, g.not_many))
      g.small)

abbrev pub shown_of : List InputFormat → List (InputFormat × List ℕ)
shown_of [] = []
shown_of (f ∷ fs) = (f, resolutions_of f) ∷ shown_of fs

pub with_resolutions_good :
    (fs : List InputFormat) → All GoodFormat fs → with_resolutions fs ≡ some (shown_of fs)
unfolding with_resolutions
with_resolutions_good [] h = refl
with_resolutions_good (f ∷ fs) h =
    rw (with_resolutions, resolutions_string_good f h.0, with_resolutions_good fs h.1)
