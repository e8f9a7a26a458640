-- ===== src/Http/Json/Clients.antt =====
-- send_clients_JSON: the clients that took pictures.
use raspberry_car.Base.{ℕ, List, [], ◌∷◌, Option}
use raspberry_car.CString.{codes}
use raspberry_car.Decimal.{decimal}
use raspberry_car.Http.Clients.{ClientInfo, ClientInfos}
use raspberry_car.Http.Json.Text.{sprintf, with_commas, described}

unfoldable pub client_text : ClientInfo → List ℕ → List ℕ
client_text c rest =
    sprintf
      (codes "{\n\"address\": \""
        ∷ c.address
        ∷ codes "\",\n\"timestamp\": "
        ∷ decimal c.last_take_time.tv_sec
        ∷ codes "\n}\n"
        ∷ [])
      rest

unfoldable pub clients_text : ClientInfos → List ℕ
unfolding client_text
clients_text infos =
    sprintf (codes "{\n\"clients\": [\n" ∷ [])
      (with_commas client_text (codes ",\n") [] infos (sprintf (codes "]" ∷ codes "\n}\n" ∷ []) []))

unfoldable pub send_clients_json : ClientInfos → Option (List ℕ)
unfolding clients_text described
send_clients_json infos = described (clients_text infos)
