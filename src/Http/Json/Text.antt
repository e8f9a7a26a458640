-- ===== src/Http/Json/Text.antt =====
-- How the descriptions are put together.
use raspberry_car.Base.{
  ℕ, zero, suc, ◌+◌, List, [], ◌∷◌, ◌++◌, Option, none, some, ltb, if◌then◌else◌, length,
}
use raspberry_car.Base.Int.{ℤ, pos, negsuc}
use raspberry_car.CString.{codes}
use raspberry_car.Decimal.{decimal}

-- `sprintf(buffer + strlen(buffer), ...)`: the pieces of a format with its arguments; `rest` is what the calls
-- after it append.
abbrev pub sprintf : List (List ℕ) → List ℕ → List ℕ
sprintf [] rest = rest
sprintf (s ∷ ss) rest = s ++ sprintf ss rest

-- `%d`
unfoldable pub signed : ℤ → List ℕ
signed (pos n) = decimal n
signed (negsuc n) = b'-' ∷ decimal (n + 1)

-- A choice by whether more rounds of the loop follow.
abbrev pub if_last {ℓ} : {A : Type ℓ} → ℕ → A → A → A
if_last zero last other = last
if_last (suc rounds) last other = other

-- A loop over descriptions, with one text between two and another behind the last.
abbrev pub with_commas {ℓ} :
    {A : Type ℓ} → (A → List ℕ → List ℕ) → List ℕ → List ℕ → List A → List ℕ → List ℕ
with_commas item comma last [] rest = rest
with_commas item comma last (x ∷ []) rest = item x (last ++ rest)
with_commas item comma last (x ∷ y ∷ xs) rest =
    item x (comma ++ with_commas item comma last (y ∷ xs) rest)

-- `BUFFER_SIZE*16`
abbrev pub json_buffer_size : ℕ
json_buffer_size = 16384

unfoldable pub json_header : List ℕ
json_header =
    sprintf
      (codes "HTTP/1.0 200 OK\r\nContent-type: "
        ∷ codes "application/x-javascript"
        ∷ codes "\r\nConnection: close\r\nServer: MJPG-Streamer/0.2\r\n"
        ∷ codes
            "Cache-Control: no-store, no-cache, must-revalidate, pre-check=0, post-check=0, max-age=0\r\n"
        ∷ codes "Pragma: no-cache\r\nExpires: Mon, 3 Jan 2000 12:34:56 GMT\r\n\r\n"
        ∷ [])
      []

-- The answer with a description; `none` if it is written past the end of the buffer.
unfoldable pub described : List ℕ → Option (List ℕ)
unfolding json_header
described description =
    let buffer = json_header ++ description in
    if ltb (length buffer) json_buffer_size then some buffer else none
