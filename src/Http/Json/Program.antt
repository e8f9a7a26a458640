-- ===== src/Http/Json/Program.antt =====
-- send_program_JSON: the plugins of the program.
use raspberry_car.Base.{ℕ, List, [], ◌∷◌, Option}
use raspberry_car.CString.{codes}
use raspberry_car.Decimal.{decimal}
use raspberry_car.Http.Json.Text.{sprintf, with_commas, described}

-- What is said of an `input` or `output`.
pub record Plugin : Type 0 where
  pub id : ℕ
  pub name : List ℕ
  pub plugin : List ℕ
  pub parameters : List ℕ

unfoldable pub plugin_text : Plugin → List ℕ → List ℕ
plugin_text p rest =
    sprintf
      (codes "{\n\"id\": \""
        ∷ decimal p.id
        ∷ codes "\",\n\"name\": \""
        ∷ p.name
        ∷ codes "\",\n\"plugin\": \""
        ∷ p.plugin
        ∷ codes "\",\n\"args\": \""
        ∷ p.parameters
        ∷ codes "\"\n}"
        ∷ [])
      rest

unfoldable pub program_text : List Plugin → List Plugin → List ℕ
unfolding plugin_text
program_text ins outs = sprintf (codes "{\n\"inputs\":[\n" ∷ []) (
    with_commas plugin_text (codes ", \n") (codes "\n") ins (
      sprintf (codes "],\n" ∷ codes "\"outputs\":[\n" ∷ []) (
        with_commas plugin_text (codes ", \n") (codes "\n") outs (sprintf (codes "]}\n" ∷ []) []))))

unfoldable pub send_program_json : List Plugin → List Plugin → Option (List ℕ)
unfolding program_text described
send_program_json ins outs = described (program_text ins outs)
