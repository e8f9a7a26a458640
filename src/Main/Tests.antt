-- ===== src/Main/Tests.antt =====
-- A command line, and the end of the program.
use raspberry_car.Base.{
  none, some, ℕ, ◌≡◌, refl, true, false, List, [], ◌∷◌, ◌++◌, arith, if◌then◌else◌,
}
use raspberry_car.CString.{codes, span, strchr}
use raspberry_car.Main.{Loaded, opened, parse, plugins, input, background, signal_handler, occurs}
use raspberry_car.Main.Resolutions.{parse_resolution_opt}
use raspberry_car.Main.Words.{spaced, opened-spaced}
use raspberry_car.Main.Stop.{closings, signal_handler-closings}

abbrev words : List (List ℕ)
words = codes "-d" ∷ codes "/dev/video0" ∷ []

opened_run :
    opened (codes "input_uvc.so -d /dev/video0")
    ≡ (codes "input_uvc.so", record { argc = 3; argv = words })
unfolding opened span strchr
opened_run = refl

opened-spaced_example :
    opened (codes "input_uvc.so" ++ spaced words)
    ≡ (codes "input_uvc.so", record { argc = 3; argv = words })
opened-spaced_example =
    opened-spaced (codes "input_uvc.so") words (ground arith) (ground arith) (omega arith)

parse_run :
    parse [] [] false (input (codes "input_uvc.so") ∷ background ∷ [])
    ≡ plugins (codes "input_uvc.so" ∷ []) [] true
unfolding parse
parse_run = refl

abbrev loaded : ℕ → Loaded
loaded h = record { handle = h; given = record { argc = 1; argv = [] } }

signal_handler-closings_example :
    closings 7 (signal_handler (loaded 3 ∷ []) (loaded 7 ∷ loaded 8 ∷ loaded 7 ∷ []))
    ≡ (if occurs 7 (loaded 7 ∷ loaded 8 ∷ loaded 7 ∷ []) then 1 else 0)
signal_handler-closings_example =
    signal_handler-closings 7 (loaded 3 ∷ []) (loaded 7 ∷ loaded 8 ∷ loaded 7 ∷ [])

fhd_run : parse_resolution_opt (λ text. none) (codes "FHD") ≡ some (1920, 1280)
unfolding parse_resolution_opt
fhd_run = refl
