-- ===== src/Http/Tests/Files.antt =====
-- Runs of send_file.
use raspberry_car.Base.{ℕ, ◌≡◌, refl, List, ◌++◌, Option, none, some, if◌then◌else◌}
use raspberry_car.CString.{codes, str_eq}
use raspberry_car.Http.File.{
  sent, last_dot, mimetypes, mimetype_of, absolute_path, file_header, file_name, send_file,
}

-- A folder with one file.
abbrev disk : List ℕ → Option (List ℕ)
disk path = if str_eq path (codes "www/style.min.css") then some (codes "body {}") else none

css-known : mimetype_of mimetypes (codes ".css") ≡ some (codes "text/css")
unfolding mimetype_of str_eq
css-known = refl

style-there : disk (codes "www/style.min.css") ≡ some (codes "body {}")
unfolding str_eq
style-there = refl

style-sent :
    send_file disk (codes "www/") (some (codes "style.min.css"))
    ≡ sent (file_header (codes "text/css") ++ codes "body {}")
unfolding send_file file_name last_dot mimetype_of str_eq absolute_path file_header
style-sent = refl
