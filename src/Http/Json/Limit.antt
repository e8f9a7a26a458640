-- ===== src/Http/Json/Limit.antt =====
-- How much the description of the clients takes of its buffer.
use raspberry_car.Base.{
  ℕ, ◌+◌, ◌*◌, ◌≤◌, ◌≡◌, true, false, List, [], ◌∷◌, ◌++◌, none, some, All, ltb, length,
  length-append, arith,
}
use raspberry_car.CString.{codes}
use raspberry_car.Decimal.{decimal}
use raspberry_car.Http.Clients.{ClientInfo, ClientInfos}
use raspberry_car.Http.Json.Text.{with_commas, json_header, described}
use raspberry_car.Http.Json.Clients.{client_text, clients_text, send_clients_json}
use raspberry_car.Http.Json.Menus.{length-decimal_pos}

-- The characters of a client that vary.
abbrev pub client_size : ClientInfo → ℕ
client_size c = length c.address + length (decimal c.last_take_time.tv_sec)

length-client_text :
    (c : ClientInfo) (rest : List ℕ)
    → length (client_text c rest) ≡ 33 + client_size c + length rest
unfolding client_text
length-client_text c rest =
    let time = decimal c.last_take_time.tv_sec in
    omega (
      arith,
      length-append c.address (codes "\",\n\"timestamp\": " ++ (time ++ (codes "\n}\n" ++ rest))),
      length-append time (codes "\n}\n" ++ rest),
    )

abbrev listing : ClientInfos → List ℕ → List ℕ
listing infos rest = with_commas client_text (codes ",\n") [] infos rest

abbrev pub sizes : ClientInfos → ℕ
sizes [] = 0
sizes (c ∷ []) = 33 + client_size c
sizes (c ∷ d ∷ infos) = 35 + client_size c + sizes (d ∷ infos)

length-listing :
    (infos : ClientInfos) (rest : List ℕ) → length (listing infos rest) ≡ sizes infos + length rest
length-listing [] rest = omega arith
length-listing (c ∷ []) rest = omega (arith, length-client_text c rest)
length-listing (c ∷ d ∷ infos) rest = omega (
  arith,
  length-client_text c (codes ",\n" ++ listing (d ∷ infos) rest),
  length-listing (d ∷ infos) rest,
)

-- The size of the whole answer, header and brackets included.
length-answer :
    (infos : ClientInfos) → length (json_header ++ clients_text infos) ≡ 271 + sizes infos
unfolding json_header clients_text
length-answer infos = omega (arith, length-listing infos (codes "]\n}\n"))

sizes_most :
    (infos : ClientInfos)
    → All (λ (c : ClientInfo). client_size c ≤ 65) infos
    → sizes infos ≤ 100 * length infos
sizes_most [] h = omega arith
sizes_most (c ∷ []) h = omega (arith, h.0)
sizes_most (c ∷ d ∷ infos) h = omega (arith, h.0, sizes_most (d ∷ infos) h.1)

sizes_least : (infos : ClientInfos) → 36 * length infos ≤ sizes infos + 2
sizes_least [] = omega arith
sizes_least (c ∷ []) = omega (arith, length-decimal_pos c.last_take_time.tv_sec)
sizes_least (c ∷ d ∷ infos) =
    omega (arith, length-decimal_pos c.last_take_time.tv_sec, sizes_least (d ∷ infos))

-- Up to 160 clients whose addresses and times have at most 65 characters together (numeric addresses have
-- at most 45, times at most 20) are described within the buffer, and the answer is sent.
pub send_clients_json-some :
    (infos : ClientInfos)
    → length infos ≤ 160
    → All (λ (c : ClientInfo). client_size c ≤ 65) infos
    → send_clients_json infos ≡ some (json_header ++ clients_text infos)
unfolding send_clients_json described
send_clients_json-some infos few small =
    let fits : ltb (length (json_header ++ clients_text infos)) 16384 ≡ true =
      ground (arith, length-answer infos, sizes_most infos small) in
    rw fits

-- From 448 clients on, whatever their addresses and times are, the description is written past the end of
-- its buffer.
pub send_clients_json-none :
    (infos : ClientInfos) → 448 ≤ length infos → send_clients_json infos ≡ none
unfolding send_clients_json described
send_clients_json-none infos many =
    let long : ltb (length (json_header ++ clients_text infos)) 16384 ≡ false =
      ground (arith, length-answer infos, sizes_least infos) in
    rw long
