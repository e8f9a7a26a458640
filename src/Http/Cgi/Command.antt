-- ===== src/Http/Cgi/Command.antt =====
-- Which commands fit their buffer, and what a client gets of the output.
use raspberry_car.Base.{
  ℕ, zero, suc, ◌+◌, ◌≤◌, ◌<◌, ◌≡◌, refl, ap, ◌∙◌, Bool, true, false, List, [], ◌∷◌, ◌++◌, Option,
  some, leb, length, length-append, take, drop, length-drop, arith,
}
use raspberry_car.CString.{codes}
use raspberry_car.Decimal.{decimal}
use raspberry_car.Http.File.{absolute_path}
use raspberry_car.Http.Json.Menus.{length-decimal_pos}
use raspberry_car.Http.Json.Resolutions.{length-decimal_le_five}
use raspberry_car.Http.Cgi.{
  environment_format, cgi_command, buffer_length, cgi_output, ran, overflow, execute_cgi,
}

-- The bytes of the pieces.
abbrev pub joined : List (List ℕ) → List ℕ
joined [] = []
joined (piece ∷ pieces) = piece ++ joined pieces

take-drop : (n : ℕ) (xs : List ℕ) → take n xs ++ drop n xs ≡ xs
take-drop zero xs = refl
take-drop (suc n) [] = refl
take-drop (suc n) (x ∷ xs) = ap (λ (t : List ℕ). x ∷ t) (take-drop n xs)

joined-cgi_output :
    (fuel writes : ℕ) (bytes : List ℕ)
    → length bytes ≤ fuel
    → length bytes ≤ writes
    → joined (cgi_output fuel writes bytes) ≡ bytes
unfolding cgi_output
joined-cgi_output zero writes [] h k = refl
joined-cgi_output zero writes (b ∷ bytes) h k = absurd (omega arith)
joined-cgi_output (suc fuel) zero [] h k = refl
joined-cgi_output (suc fuel) zero (b ∷ bytes) h k = absurd (omega arith)
joined-cgi_output (suc fuel) (suc writes) [] h k = refl
joined-cgi_output (suc fuel) (suc writes) (b ∷ bytes) h k =
    ap (λ (t : List ℕ). take 8 (b ∷ bytes) ++ t)
      (joined-cgi_output fuel writes (drop 8 (b ∷ bytes)) (omega (arith, length-drop 8 (b ∷ bytes)))
        (omega (arith, length-drop 8 (b ∷ bytes))))
    ∙ take-drop 8 (b ∷ bytes)

length-cgi_command :
    (port : ℕ) (parameter query path : List ℕ)
    → length (cgi_command port parameter query path) + 264
      ≡ buffer_length parameter path + length (decimal port) + length query
unfolding cgi_command buffer_length environment_format
length-cgi_command port parameter query path =
    let behind_query = codes "\" " ++ (path ++ []) in
    let behind_name = codes "\" QUERY_STRING=\"" ++ (query ++ behind_query) in
    let behind_port =
      codes "\" GATEWAY_INTERFACE=\"CGI/1.1\" REQUEST_METHOD=\"GET\" SCRIPT_NAME=\""
      ++ (parameter ++ behind_name) in
    omega (
      arith,
      length-append (decimal port) behind_port,
      length-append parameter behind_name,
      length-append query behind_query,
      length-append path [],
    )

-- A script that can be opened and run, asked for with a query of at most 258 characters at a port below
-- 100000, is run by the command with these values, and a client that takes all that is written gets its
-- whole output, in its order.
pub execute_cgi-ran :
    (exists : List ℕ → Bool) (popen : List ℕ → Option (List ℕ)) (writes port : ℕ)
    (www_folder parameter query bytes : List ℕ)
    → exists (absolute_path www_folder parameter) ≡ true
    → popen (cgi_command port parameter query (absolute_path www_folder parameter)) ≡ some bytes
    → port < 100000
    → length query ≤ 258
    → length bytes ≤ writes
    → (pieces : List (List ℕ)) × (execute_cgi exists popen writes www_folder port parameter query
        ≡ ran (cgi_command port parameter query (absolute_path www_folder parameter)) pieces)
      × (joined pieces ≡ bytes)
unfolding execute_cgi
execute_cgi-ran exists popen writes port folder parameter query bytes found run low short takes =
    let path = absolute_path folder parameter in
    let fits : leb (length (cgi_command port parameter query path) + 1)
          (buffer_length parameter path)
        ≡ true =
      ground
        (arith, length-cgi_command port parameter query path, length-decimal_le_five port low) in
    (
      cgi_output (length bytes) writes bytes,
      rw (execute_cgi, found, fits, run),
      joined-cgi_output (length bytes) writes bytes (omega arith) takes,
    )

-- The memory for the command does not count the query: a query of 263 characters or more, to any script
-- that can be opened, makes the command longer than its buffer.
pub execute_cgi-overflow :
    (exists : List ℕ → Bool) (popen : List ℕ → Option (List ℕ)) (writes port : ℕ)
    (www_folder parameter query : List ℕ)
    → exists (absolute_path www_folder parameter) ≡ true
    → 263 ≤ length query
    → execute_cgi exists popen writes www_folder port parameter query ≡ overflow
unfolding execute_cgi
execute_cgi-overflow exists popen writes port folder parameter query found long =
    let path = absolute_path folder parameter in
    let full : leb (length (cgi_command port parameter query path) + 1)
          (buffer_length parameter path)
        ≡ false =
      ground (arith, length-cgi_command port parameter query path, length-decimal_pos port) in
    rw (execute_cgi, found, full)
