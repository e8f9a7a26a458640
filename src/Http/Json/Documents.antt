-- ===== src/Http/Json/Documents.antt =====
-- The descriptions of clients and of plugins are JSON, and say what they should.
use raspberry_car.Base.{ℕ, ◌≡◌, refl, ap, ◌∙◌, List, [], ◌∷◌, ◌++◌, All, some}
use raspberry_car.CString.{codes}
use raspberry_car.Decimal.{decimal, decimal-IsNumber}
use raspberry_car.Http.Clients.{ClientInfo, ClientInfos}
use raspberry_car.Http.Json.Clients.{client_text, clients_text}
use raspberry_car.Http.Json.Program.{Plugin, plugin_text, program_text}
use raspberry_car.Http.Json.Text.{sprintf, with_commas}
use raspberry_car.Http.Json.Strings.{Plain, read_text}
use raspberry_car.Http.Json.Parts.{decimal-Plain, read_number, all_tokens, onto-onto, read_array}
use raspberry_car.Http.Json.Reader.{
  Token, Bracket, object, array, open_object, close_object, open_array, close_array, name, string,
  number, value, first_element, behind_value, onto, read, document,
}

abbrev pub client_tokens : ClientInfo → List Token
client_tokens c =
    open_object
    ∷ name (codes "address")
    ∷ string c.address
    ∷ name (codes "timestamp")
    ∷ number (decimal c.last_take_time.tv_sec)
    ∷ close_object
    ∷ []

client-read :
    (c : ClientInfo) (rest : List ℕ) (inside : List Bracket) (seen : List Token)
    → Plain c.address
    → read (client_text c rest) value inside seen
      ≡ read rest behind_value inside (onto (client_tokens c) seen)
unfolding read client_text onto
client-read c rest inside seen h =
    let time = decimal c.last_take_time.tv_sec in
    let named : List Token = name (codes "address") ∷ open_object ∷ seen in
    let timed : List Token = name (codes "timestamp") ∷ string c.address ∷ named in
    read_text c.address (sprintf (codes ",\n\"timestamp\": " ∷ time ∷ codes "\n}\n" ∷ []) rest) []
      (object ∷ inside) named h
    ∙ read_number time (codes "}\n" ++ rest) (object ∷ inside) timed
        (decimal-IsNumber c.last_take_time.tv_sec)

abbrev pub clients_tokens : ClientInfos → List Token
clients_tokens infos =
    open_object ∷ name (codes "clients") ∷ open_array ∷ all_tokens client_tokens infos
    ++ close_array ∷ close_object ∷ []

abbrev pub PlainAddress : ClientInfo → Type 0
PlainAddress c = Plain c.address

-- Where no address has a quote, a backslash or a control character, the description of the clients is a
-- JSON document: an object with the one name "clients" and an array with an object for each client, in
-- their order, of its address as a string and the seconds of its last picture as a number.
pub clients_text-document :
    (infos : ClientInfos)
    → All PlainAddress infos
    → document (clients_text infos) ≡ some (clients_tokens infos)
unfolding document read clients_text onto client_text
clients_text-document infos h =
    let opened : List Token = open_array ∷ name (codes "clients") ∷ open_object ∷ [] in
    read_array {Good = PlainAddress} client_text client_tokens (codes ",\n") [] (codes "]")
      (object ∷ []) (λ x rest seen. refl)
      (λ x rest seen g. client-read x (codes ",\n" ++ rest) (array ∷ object ∷ []) seen g)
      (λ x rest seen g. client-read x rest (array ∷ object ∷ []) seen g) (λ rest seen. (refl, refl))
      infos (codes "\n}\n") opened h
    ∙ ap some (onto-onto (all_tokens client_tokens infos) opened (close_array ∷ close_object ∷ []))

abbrev pub plugin_tokens : Plugin → List Token
plugin_tokens p =
    open_object
    ∷ name (codes "id")
    ∷ string (decimal p.id)
    ∷ name (codes "name")
    ∷ string p.name
    ∷ name (codes "plugin")
    ∷ string p.plugin
    ∷ name (codes "args")
    ∷ string p.parameters
    ∷ close_object
    ∷ []

-- Texts that can stand between quotes as they are.
abbrev pub PlainPlugin : Plugin → Type 0
PlainPlugin p = Plain p.name × Plain p.plugin × Plain p.parameters

plugin-read :
    (p : Plugin) (rest : List ℕ) (inside : List Bracket) (seen : List Token)
    → PlainPlugin p
    → read (plugin_text p rest) value inside seen
      ≡ read rest behind_value inside (onto (plugin_tokens p) seen)
unfolding read plugin_text onto
plugin-read p rest inside seen h =
    let so : List Bracket = object ∷ inside in
    let s1 : List Token = name (codes "id") ∷ open_object ∷ seen in
    let s2 : List Token = name (codes "name") ∷ string (decimal p.id) ∷ s1 in
    let s3 : List Token = name (codes "plugin") ∷ string p.name ∷ s2 in
    let s4 : List Token = name (codes "args") ∷ string p.plugin ∷ s3 in
    let r4 = sprintf (codes "\n}" ∷ []) rest in
    let r3 = sprintf (codes ",\n\"args\": \"" ∷ p.parameters ∷ codes "\"\n}" ∷ []) rest in
    let r2 =
      sprintf
        (codes ",\n\"plugin\": \""
          ∷ p.plugin
          ∷ codes "\",\n\"args\": \""
          ∷ p.parameters
          ∷ codes "\"\n}"
          ∷ [])
        rest in
    let r1 =
      sprintf
        (codes ",\n\"name\": \""
          ∷ p.name
          ∷ codes "\",\n\"plugin\": \""
          ∷ p.plugin
          ∷ codes "\",\n\"args\": \""
          ∷ p.parameters
          ∷ codes "\"\n}"
          ∷ [])
        rest in
    read_text (decimal p.id) r1 [] so s1 (decimal-Plain p.id)
    ∙ read_text p.name r2 [] so s2 h.0
    ∙ read_text p.plugin r3 [] so s3 h.1
    ∙ read_text p.parameters r4 [] so s4 h.2

plugins-read :
    (plugins : List Plugin) (rest : List ℕ) (seen : List Token)
    → All PlainPlugin plugins
    → read
        (with_commas plugin_text (codes ", \n") (codes "\n") plugins (b']' ∷ rest))
        first_element
        (array ∷ object ∷ [])
        seen
      ≡ read rest behind_value
          (object ∷ [])
          (close_array ∷ onto (all_tokens plugin_tokens plugins) seen)
unfolding read plugin_text
plugins-read plugins rest seen h =
    read_array {Good = PlainPlugin} plugin_text plugin_tokens (codes ", \n") (codes "\n")
      (codes "]") (object ∷ []) (λ x rest seen. refl)
      (λ x rest seen g. plugin-read x (codes ", \n" ++ rest) (array ∷ object ∷ []) seen g)
      (λ x rest seen g. plugin-read x (codes "\n" ++ rest) (array ∷ object ∷ []) seen g)
      (λ rest seen. (refl, refl)) plugins rest seen h

abbrev pub program_tokens : List Plugin → List Plugin → List Token
program_tokens ins outs =
    open_object ∷ name (codes "inputs") ∷ open_array ∷ all_tokens plugin_tokens ins
    ++ (close_array ∷ name (codes "outputs") ∷ open_array ∷ all_tokens plugin_tokens outs
        ++ close_array ∷ close_object ∷ [])

-- Where no name and no parameter of a plugin has a quote, a backslash or a control character, the
-- description of the program is a JSON document: an object with two arrays, of the input plugins and
-- of the output plugins, in their order, each an object of the plugin's four texts.
pub program_text-document :
    (ins outs : List Plugin)
    → All PlainPlugin ins
    → All PlainPlugin outs
    → document (program_text ins outs) ≡ some (program_tokens ins outs)
unfolding document read program_text onto
program_text-document ins outs h k =
    let s1 : List Token = open_array ∷ name (codes "inputs") ∷ open_object ∷ [] in
    let t1 = all_tokens plugin_tokens ins in
    let s2 : List Token = open_array ∷ name (codes "outputs") ∷ close_array ∷ onto t1 s1 in
    let t2 = all_tokens plugin_tokens outs in
    let end : List Token = close_array ∷ close_object ∷ [] in
    plugins-read ins
      (sprintf (codes ",\n" ∷ codes "\"outputs\":[\n" ∷ [])
        (with_commas plugin_text (codes ", \n") (codes "\n") outs (codes "]}\n")))
      s1 h
    ∙ plugins-read outs (codes "}\n") s2 k
    ∙ ap some (onto-onto t2 s2 end)
    ∙ ap some (onto-onto t1 s1 (close_array ∷ name (codes "outputs") ∷ open_array ∷ t2 ++ end))
