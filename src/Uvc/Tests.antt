-- ===== src/Uvc/Tests.antt =====
-- Runs of the conversion and of the completion of frames.
use raspberry_car.Base.{
  inr, zero, suc, ℕ, ◌≡◌, refl, false, List, [], ◌∷◌, ◌++◌, some, All, length, arith,
}
use raspberry_car.Uvc.Ioctl.{Outcome, success, transient, xioctl, Retries, xioctl-Retries}
use raspberry_car.Uvc.Tables.{dht_data}
use raspberry_car.Uvc.Picture.{is_huffman, memcpy_picture}
use raspberry_car.Uvc.Picture.Complete.{complete, has_start, memcpy_picture-complete}
use raspberry_car.Uvc.Picture.Insert.{start_of_frame}
use raspberry_car.Uvc.Pixels.{yuyv, scanlines}
use raspberry_car.Uvc.Pixels.Rows.{IsRow, scanlines-IsRow}

-- Two rows of two pixels, two bytes each.
abbrev picture : List ℕ
picture = 10 ∷ 128 ∷ 20 ∷ 128 ∷ 30 ∷ 100 ∷ 40 ∷ 200 ∷ []

picture_rows :
    scanlines yuyv 2 2 picture
    ≡ some ((10 ∷ 10 ∷ 10 ∷ 20 ∷ 20 ∷ 20 ∷ []) ∷ (130 ∷ 0 ∷ 0 ∷ 140 ∷ 0 ∷ 0 ∷ []) ∷ [])
unfolding scanlines
picture_rows = refl

scanlines-IsRow_example :
    (rows : List (List ℕ)) × (scanlines yuyv 2 2 picture ≡ some rows)
    × (length rows ≡ 2)
    × All (IsRow 2) rows
scanlines-IsRow_example = scanlines-IsRow yuyv 2 2 picture (omega arith) (omega arith)

abbrev front : List ℕ
front = 0xff ∷ 0xd8 ∷ []

-- A start of scan ends the search for tables.
front_plain : is_huffman (front ++ (start_of_frame (1 ∷ []) ++ 0xff ∷ 0xda ∷ [])) ≡ some false
unfolding is_huffman
front_plain = refl

abbrev untabled : List ℕ
untabled = front ++ (start_of_frame (1 ∷ []) ++ 0xff ∷ 0xda ∷ [])

memcpy_picture-complete_example :
    memcpy_picture (untabled ++ 5 ∷ []) (length untabled) ≡ some (complete untabled)
unfolding has_start
memcpy_picture-complete_example =
    memcpy_picture-complete untabled (5 ∷ []) (inr (front_plain, refl))

-- The completed picture has the tables behind its first two bytes.
complete-untabled :
    complete untabled ≡ front ++ (dht_data ++ (start_of_frame (1 ∷ []) ++ 0xff ∷ 0xda ∷ []))
unfolding complete is_huffman
complete-untabled = refl

-- An error that passes, and then success.
abbrev answers : ℕ → Outcome
answers zero = transient
answers (suc k) = success

xioctl-Retries_example : Retries 4 (xioctl answers)
xioctl-Retries_example = xioctl-Retries answers
