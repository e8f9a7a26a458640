-- ===== src/Http/File.antt =====
-- send_file: a file of the folder, by its name.
pub mod Sent
use raspberry_car.Base.{
  ℕ, zero, suc, ◌+◌, ◌-◌, Bool, true, false, List, [], ◌∷◌, ◌++◌, Option, none, some, ◌==◌,
  if◌then◌else◌, take, drop, length,
}
use raspberry_car.CString.{codes, str_eq}

-- What the client gets: an error, or the bytes of an answer.
pub data FileReply : Type 0 where
  failed : ℕ → FileReply
  sent : List ℕ → FileReply

-- The loop over the dots, from position `i` on; `last` is `lastDot`.
unfoldable pub last_dot : ℕ → ℕ → List ℕ → ℕ
last_dot i last [] = last
last_dot i last (c ∷ cs) = if c == b'.' then last_dot (i + 1) i cs else last_dot (i + 1) last cs

abbrev pub mimetypes : List (List ℕ × List ℕ)
mimetypes =
    (codes ".html", codes "text/html")
    ∷ (codes ".htm", codes "text/html")
    ∷ (codes ".css", codes "text/css")
    ∷ (codes ".js", codes "text/javascript")
    ∷ (codes ".txt", codes "text/plain")
    ∷ (codes ".jpg", codes "image/jpeg")
    ∷ (codes ".jpeg", codes "image/jpeg")
    ∷ (codes ".png", codes "image/png")
    ∷ (codes ".gif", codes "image/gif")
    ∷ (codes ".ico", codes "image/x-icon")
    ∷ (codes ".swf", codes "application/x-shockwave-flash")
    ∷ (codes ".cab", codes "application/x-shockwave-flash")
    ∷ (codes ".jar", codes "application/java-archive")
    ∷ (codes ".json", codes "application/json")
    ∷ []

unfoldable pub mimetype_of : List (List ℕ × List ℕ) → List ℕ → Option (List ℕ)
unfolding str_eq
mimetype_of [] extension = none
mimetype_of ((dot_extension, mimetype) ∷ types) extension =
    let later = mimetype_of types extension in
    if str_eq dot_extension extension then some mimetype else later

abbrev pub file_buffer : ℕ
file_buffer = 1024

-- The two calls of `strncat` on the empty buffer.
unfoldable pub absolute_path : List ℕ → List ℕ → List ℕ
absolute_path www_folder name =
    let folder = take (file_buffer - 1) www_folder in
    folder ++ take (file_buffer - length folder - 1) name

unfoldable pub file_header : List ℕ → List ℕ
file_header mimetype =
    codes "HTTP/1.0 200 OK\r\nContent-type: "
    ++ (mimetype
        ++ codes
            "\r\nConnection: close\r\nServer: MJPG-Streamer/0.2\r\nCache-Control: no-store, no-cache, must-revalidate, pre-check=0, post-check=0, max-age=0\r\nPragma: no-cache\r\nExpires: Mon, 3 Jan 2000 12:34:56 GMT\r\n\r\n")

-- No parameter, or an empty one, stands for the index.
unfoldable pub file_name : Option (List ℕ) → List ℕ
file_name none = codes "index.html"
file_name (some []) = codes "index.html"
file_name (some (c ∷ cs)) = c ∷ cs

-- `content` gives what the files hold that can be opened; all writes succeed.
unfoldable pub send_file : (List ℕ → Option (List ℕ)) → List ℕ → Option (List ℕ) → FileReply
unfolding last_dot mimetype_of absolute_path file_header file_name
send_file content www_folder parameter =
    let name = file_name parameter in
    let dot = last_dot 0 0 name in
    let answer : FileReply = elim (mimetype_of mimetypes (drop dot name)) [
      | none ↦ failed 404
      | some mimetype ↦ elim (content (absolute_path www_folder name)) [
        | none ↦ failed 404
        | some bytes ↦ sent (file_header mimetype ++ bytes)
      ]
    ] in
    if dot == 0 then failed 400 else answer
