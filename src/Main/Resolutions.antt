-- ===== src/Main/Resolutions.antt =====
-- utils.c: the resolutions that have a name, and parse_resolution_opt.
use raspberry_car.Base.{ℕ, ◌≡◌, refl, List, [], ◌∷◌, Option, none, some, All, if◌then◌else◌}
use raspberry_car.CString.{codes, str_eq}

pub record Named : Type 0 where
  pub string : List ℕ
  pub width : ℕ
  pub height : ℕ

abbrev named : List ℕ → ℕ → ℕ → Named
named string width height = record { string = string; width = width; height = height }

unfoldable pub named_resolutions : List Named
named_resolutions =
    named (codes "QQVGA") 160 120
    ∷ named (codes "QCIF") 176 144
    ∷ named (codes "CGA") 320 200
    ∷ named (codes "QVGA") 320 240
    ∷ named (codes "CIF") 352 288
    ∷ named (codes "PAL") 720 576
    ∷ named (codes "VGA") 640 480
    ∷ named (codes "SVGA") 800 600
    ∷ named (codes "XGA") 1024 768
    ∷ named (codes "HD") 1280 720
    ∷ named (codes "SXGA") 1280 1024
    ∷ named (codes "UXGA") 1600 1200
    ∷ named (codes "FHD") 1920 1280
    ∷ []

-- The loop over the table.
unfoldable pub find_named : List Named → List ℕ → Option (ℕ × ℕ)
unfolding str_eq
find_named [] optarg = none
find_named (r ∷ rs) optarg =
    let later = find_named rs optarg in
    if str_eq r.string optarg then some (r.width, r.height) else later

-- `scan` is `sscanf(optarg, "%dx%d", ...)`, where it finds both numbers; `none` ends the program.
unfoldable pub parse_resolution_opt : (List ℕ → Option (ℕ × ℕ)) → List ℕ → Option (ℕ × ℕ)
unfolding find_named named_resolutions
parse_resolution_opt scan optarg = elim (find_named named_resolutions optarg) [
  | some size ↦ some size
  | none ↦ scan optarg
]

-- Every name of the table stands for the size beside it, whatever `scan` does.
pub parse_resolution_opt-named :
    (scan : List ℕ → Option (ℕ × ℕ))
    → All
        (λ (r : Named). parse_resolution_opt scan r.string ≡ some (r.width, r.height))
        named_resolutions
unfolding parse_resolution_opt named_resolutions
parse_resolution_opt-named scan = (
  refl,
  (
    refl,
    (refl, (refl, (refl, (refl, (refl, (refl, (refl, (refl, (refl, (refl, (refl, tt))))))))))),
  ),
)
