-- ===== src/Runner/Instance/Params.antt =====
-- The parameters that a module gets.
use gxo.Prelude.{String, Option, none, some, ◌≡◌}
use gxo.Prelude.Dict.{Dict}
use gxo.Value.{Value, str}
use gxo.Errors.{Result, ok}
use gxo.Runner.Instance.{render_param}

-- What a parameter is rendered to.
abbrev rendered_as :
    (String → Dict Value → Result Value) → Dict Value → Option Value → Option (Result Value)
rendered_as resolve template_data none = none
rendered_as resolve template_data (some v) = some (render_param resolve template_data v)

abbrev found : Option Value → Option (Result Value)
found none = none
found (some v) = some (ok v)

module _ (resolve : String → Dict Value → Result Value) (template_data : Dict Value) where
  abbrev falls_back : Option (Result Value) → Option (Result Value) → Option (Result Value)
  falls_back none o = o
  falls_back (some r) o = some r

-- What a module gets for a parameter: for a text what the template engine makes of it, and every other
-- value as it is.
abbrev pub IsGiven :
    (String → Dict Value → Result Value) → Dict Value → Option Value → Option Value → Type 0
IsGiven resolve template_data none got = got ≡ none
IsGiven resolve template_data (some (str text)) got =
    (v : Value) × (resolve text template_data ≡ ok v) × (got ≡ some v)
IsGiven resolve template_data (some v) got = got ≡ some v

abbrev pub producers_key : String
producers_key = "_gxo_producer_id_map_"
