-- ===== src/Ortc/Validate/Extension.antt =====
-- validateRtpHeaderExtension and validateRtpHeaderExtensionParameters.
use libmediasouphandler.Base.{Bool, false, not, ◌||◌, Option, some, List, [], ◌∷◌, ◌==◌}
use libmediasouphandler.Base.Text.{is_empty}
use libmediasouphandler.Base.Result.{Result, ok, type_error, guard, ◌>>◌}
use libmediasouphandler.Json.{
  Json, boolean, str, obj, Fields, end, field, is_string, is_boolean, is_number, is_number_integer,
  is_object,
}
use libmediasouphandler.Ortc.Rule.{Rule, validate, mandatory, fill, default_to, then_step}

-- A text that is not empty.
abbrev pub is_text : Json → Bool
is_text (str s) = not (is_empty s)
is_text _ = false

abbrev pub is_kind : Json → Bool
is_kind (str s) = s == "audio" || s == "video"
is_kind _ = false

abbrev pub header_extension_rules : List Rule
header_extension_rules =
    record {
      key = "kind";
      step =
          then_step (mandatory is_string "missing ext.kind") (mandatory is_kind "invalid ext.kind");
    }
    ∷ record { key = "uri"; step = mandatory is_text "missing ext.uri" }
    ∷ record { key = "preferredId"; step = mandatory is_number_integer "missing ext.preferredId" }
    ∷ record {
      key = "preferredEncrypt";
      step = fill is_boolean "invalid ext.preferredEncrypt" (boolean false);
    }
    ∷ record { key = "direction"; step = fill is_string "invalid ext.direction" (str "sendrecv") }
    ∷ []

unfoldable pub validate_header_extension : Json → Result Json
validate_header_extension = validate "ext is not an object" header_extension_rules

abbrev pub check_extension_parameters : Fields → Result (Unit {0})
check_extension_parameters end = ok tt
check_extension_parameters (field key v rest) = do
  guard (is_string v || is_number v) (type_error "invalid header extension parameter")
  check_extension_parameters rest

unfoldable pub extension_parameters_step : Option Json → Result (Option Json)
extension_parameters_step (some (obj ps)) = do check_extension_parameters ps; ok (some (obj ps))
extension_parameters_step o = ok o

abbrev pub header_extension_parameters_rules : List Rule
header_extension_parameters_rules =
    record { key = "uri"; step = mandatory is_text "missing ext.uri" }
    ∷ record { key = "id"; step = mandatory is_number_integer "missing ext.id" }
    ∷ record { key = "encrypt"; step = fill is_boolean "invalid ext.encrypt" (boolean false) }
    ∷ record {
      key = "parameters";
      step = then_step (default_to is_object (obj end)) extension_parameters_step;
    }
    ∷ []

unfoldable pub validate_header_extension_parameters : Json → Result Json
validate_header_extension_parameters =
    validate "ext is not an object" header_extension_parameters_rules
