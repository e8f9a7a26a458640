-- ===== src/Http/File/Sent.antt =====
-- Which files are sent.
use raspberry_car.Base.{
  ℕ, ◌+◌, ◌-◌, ◌<◌, ◌≡◌, ◌≢◌, refl, sym, ap, ◌∙◌, subst, false, List, [], ◌∷◌, ◌++◌, Option, some,
  inl, inr, ◌==◌, drop, length, All, Bool-cases, Option-cases, length-append, take_all, arith,
}
use raspberry_car.CString.{str_eq, str_eq-eq}
use raspberry_car.Http.File.{
  failed, sent, last_dot, mimetypes, mimetype_of, absolute_path, file_header, file_name, send_file,
  file_buffer,
}

-- The table has a row with the extension and the type.
pub data Lists : List (List ℕ × List ℕ) → List ℕ → List ℕ → Type 0 where
  here :
      {extension mimetype : List ℕ} {types : List (List ℕ × List ℕ)}
      → Lists ((extension, mimetype) ∷ types) extension mimetype
  there :
      {extension mimetype : List ℕ} {row : List ℕ × List ℕ} {types : List (List ℕ × List ℕ)}
      → Lists types extension mimetype
      → Lists (row ∷ types) extension mimetype

mimetype_of-Lists :
    (types : List (List ℕ × List ℕ)) (extension mimetype : List ℕ)
    → mimetype_of types extension ≡ some mimetype
    → Lists types extension mimetype
unfolding mimetype_of
mimetype_of-Lists [] extension mimetype h = cc
mimetype_of-Lists ((e, m) ∷ types) extension mimetype h = elim (Bool-cases (str_eq e extension)) [
  | inl same ↦
      subst (λ (x : List ℕ). Lists ((e, m) ∷ types) x mimetype) (str_eq-eq e extension same)
        (subst (λ (y : List ℕ). Lists ((e, m) ∷ types) e y) (some-eq (rw same at h)) here)
  | inr other ↦ there (mimetype_of-Lists types extension mimetype (rw other at h))
]
  where
    some-eq : some m ≡ some mimetype → m ≡ mimetype
    some-eq d = cc

last_dot_dotless :
    (i last : ℕ) (text : List ℕ) → All (λ c. c ≢ b'.') text → last_dot i last text ≡ last
unfolding last_dot
last_dot_dotless i last [] h = refl
last_dot_dotless i last (c ∷ text) h =
    let other : (c == b'.') ≡ false = ground arith in
    rw other (last_dot_dotless (i + 1) last text h.1)

last_dot_lem :
    (i last : ℕ) (stem text : List ℕ)
    → All (λ c. c ≢ b'.') text
    → last_dot i last (stem ++ b'.' ∷ text) ≡ i + length stem
unfolding last_dot
last_dot_lem i last [] text h = last_dot_dotless (i + 1) i text h ∙ plus_zero
  where
    plus_zero : i ≡ i + length {A = ℕ} []
    plus_zero = omega arith
last_dot_lem i last (c ∷ stem) text h = elim (Bool-cases (c == b'.')) [
  | inl dot ↦ rw dot (last_dot_lem (i + 1) i stem text h ∙ shift)
  | inr other ↦ rw other (last_dot_lem (i + 1) last stem text h ∙ shift)
]
  where
    shift : i + 1 + length stem ≡ i + length (c ∷ stem)
    shift = omega arith

drop-stem : (stem text : List ℕ) → drop (length stem) (stem ++ text) ≡ text
drop-stem [] text = refl
drop-stem (c ∷ stem) text = drop-stem stem text

absolute_path_short :
    (www_folder name : List ℕ)
    → length www_folder + length name < file_buffer
    → absolute_path www_folder name ≡ www_folder ++ name
unfolding absolute_path
absolute_path_short www_folder name short = rw (
  take_all (file_buffer - 1) www_folder (omega arith),
  take_all (file_buffer - length www_folder - 1) name (omega arith),
)

file_name-some : (name : List ℕ) → 0 < length name → file_name (some name) ≡ name
unfolding file_name
file_name-some [] h = absurd (omega arith)
file_name-some (c ∷ name) h = refl

module _ (content : List ℕ → Option (List ℕ)) (www_folder : List ℕ) where
  send_file-known :
      (parameter : Option (List ℕ)) (name mimetype bytes : List ℕ) (dot : ℕ)
      → file_name parameter ≡ name
      → last_dot 0 0 name ≡ dot
      → 0 < dot
      → mimetype_of mimetypes (drop dot name) ≡ some mimetype
      → content (absolute_path www_folder name) ≡ some bytes
      → send_file content www_folder parameter ≡ sent (file_header mimetype ++ bytes)
  unfolding send_file
  send_file-known parameter name mimetype bytes dot n d more m c =
      let later : (dot == 0) ≡ false = ground arith in rw (send_file, n, d, later, m, n, c)

  -- A name with a stem and a known extension leads to the file of that name in the folder: its
  -- content is sent behind the header for the extension's type, where the file can be opened and
  -- its path fits in the buffer.
  pub send_file-sent :
      (stem text mimetype bytes : List ℕ)
      → 0 < length stem
      → All (λ c. c ≢ b'.') text
      → mimetype_of mimetypes (b'.' ∷ text) ≡ some mimetype
      → length www_folder + length (stem ++ b'.' ∷ text) < file_buffer
      → content (www_folder ++ (stem ++ b'.' ∷ text)) ≡ some bytes
      → send_file content www_folder (some (stem ++ b'.' ∷ text))
        ≡ sent (file_header mimetype ++ bytes)
  send_file-sent stem text mimetype bytes more dotless known short opened =
      let name = stem ++ b'.' ∷ text in
      send_file-known (some name) name mimetype bytes (length stem)
        (file_name-some name (omega (arith, length-append stem (b'.' ∷ text))))
        (last_dot_lem 0 0 stem text dotless ∙ zero_add (length stem)) more
        (ap (mimetype_of mimetypes) (drop-stem stem (b'.' ∷ text)) ∙ known)
        (ap content (absolute_path_short www_folder name short) ∙ opened)
    where
      zero_add : (n : ℕ) → 0 + n ≡ n
      zero_add n = omega arith

  -- Nothing is sent but what the file at the path of the folder and the name holds, behind the header
  -- for a type that the table gives to an end of the name.
  pub send_file-Lists :
      (parameter : Option (List ℕ)) (answer : List ℕ)
      → send_file content www_folder parameter ≡ sent answer
      → (dot : ℕ) × (mimetype : List ℕ) × (bytes : List ℕ) × Lists mimetypes
          (drop dot (file_name parameter))
          mimetype
        × (content (absolute_path www_folder (file_name parameter)) ≡ some bytes)
        × (answer ≡ file_header mimetype ++ bytes)
  unfolding send_file
  send_file-Lists parameter answer h =
      let name = file_name parameter in
      let dot = last_dot 0 0 name in
      elim (Bool-cases (dot == 0)) [
        | inl none_found ↦ absurd (failed-sent 400 (rw (send_file, none_found) at h))
        | inr later ↦ elim (Option-cases (mimetype_of mimetypes (drop dot name))) [
          | inl unknown ↦ absurd (failed-sent 404 (rw (send_file, later, unknown) at h))
          | inr (mimetype, known) ↦ elim (Option-cases (content (absolute_path www_folder name))) [
            | inl closed ↦ absurd (failed-sent 404 (rw (send_file, later, known, closed) at h))
            | inr (bytes, opened) ↦ (
              dot,
              mimetype,
              bytes,
              mimetype_of-Lists mimetypes (drop dot name) mimetype known,
              opened,
              sym (
                  sent-eq (file_header mimetype ++ bytes)
                    (rw (send_file, later, known, opened) at h)),
            )
          ]
        ]
      ]
    where
      failed-sent : (code : ℕ) → failed code ≡ sent answer → ⊥
      failed-sent code e = cc

      sent-eq : (text : List ℕ) → sent text ≡ sent answer → text ≡ answer
      sent-eq text e = cc
