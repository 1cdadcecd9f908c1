-- ===== src/Ortc/Validate/Codec.antt =====
-- validateRtpCodecCapability, validateRtpCodecParameters and validateRtcpFeedback.
use libmediasouphandler.Base.{
  String, Bool, not, ◌||◌, Option, none, some, List, [], ◌∷◌, ◌==◌, if◌then◌else◌,
}
use libmediasouphandler.Base.Int.{pos}
use libmediasouphandler.Base.Result.{Result, ok, err, type_error, guard, ◌>>=◌, ◌>>◌}
use libmediasouphandler.Json.{
  Json, number_integer, str, obj, Fields, end, field, get, array, is_string, is_number,
  is_number_integer, is_null, is_array, is_object,
}
use libmediasouphandler.Ortc.Mime.{media_type}
use libmediasouphandler.Ortc.Rule.{
  Rule, run, validate, mandatory, optional, default_to, then_step, each,
}

abbrev pub rtcp_feedback_rules : List Rule
rtcp_feedback_rules =
    record { key = "type"; step = mandatory is_string "missing fb.type" }
    ∷ record { key = "parameter"; step = default_to is_string (str "") }
    ∷ []

unfoldable pub validate_rtcp_feedback : Json → Result Json
validate_rtcp_feedback = validate "fb is not an object" rtcp_feedback_rules

-- The media kind in the codec's MIME type, which is mandatory.
unfoldable pub mime_kind : Option Json → Result String
mime_kind (some (str s)) = elim (media_type s) [
  | none ↦ err (type_error "invalid codec.mimeType")
  | some kind ↦ ok kind
]
mime_kind _ = err (type_error "missing codec.mimeType")

-- An audio codec has one channel unless it says otherwise; any other has none.
unfoldable pub channels_step : String → Option Json → Result (Option Json)
channels_step kind o =
    if kind == "audio" then default_to is_number_integer (number_integer (pos 1)) o else ok none

abbrev pub codec_parameter_type : Json → Bool
codec_parameter_type v = is_string v || is_number v || is_null v

abbrev pub check_codec_parameters : Fields → Result (Unit {0})
check_codec_parameters end = ok tt
check_codec_parameters (field key v rest) = do
  guard (codec_parameter_type v) (type_error "invalid codec parameter")
  guard (not (key == "apt") || is_number_integer v) (type_error "invalid codec apt parameter")
  check_codec_parameters rest

-- The loop over the codec's parameters, which changes none.
unfoldable pub codec_parameters_step : Option Json → Result (Option Json)
codec_parameters_step (some (obj ps)) = do check_codec_parameters ps; ok (some (obj ps))
codec_parameters_step o = ok o

abbrev pub parameters_rule : Rule
parameters_rule = record {
  key = "parameters";
  step = then_step (default_to is_object (obj end)) codec_parameters_step;
}

abbrev pub feedback_rule : Rule
feedback_rule = record {
  key = "rtcpFeedback";
  step = then_step (default_to is_array (array [])) (each validate_rtcp_feedback);
}

abbrev pub codec_capability_rules : String → List Rule
codec_capability_rules kind =
    record { key = "kind"; step = λ _. ok (some (str kind)) }
    ∷ record {
      key = "preferredPayloadType";
      step = optional is_number_integer "invalid codec.preferredPayloadType";
    }
    ∷ record { key = "clockRate"; step = mandatory is_number_integer "missing codec.clockRate" }
    ∷ record { key = "channels"; step = channels_step kind }
    ∷ parameters_rule
    ∷ feedback_rule
    ∷ []

-- Both validators of a codec first match its MIME type, whose kind decides the rules.
unfoldable pub validate_codec : (String → List Rule) → Json → Result Json
validate_codec rules (obj fs) = do
  kind ← mime_kind (get "mimeType" fs)
  fs' ← run (rules kind) fs
  ok (obj fs')
validate_codec rules _ = err (type_error "codec is not an object")

unfoldable pub validate_codec_capability : Json → Result Json
validate_codec_capability = validate_codec codec_capability_rules

abbrev pub codec_parameters_rules : String → List Rule
codec_parameters_rules kind =
    record { key = "payloadType"; step = mandatory is_number_integer "missing codec.payloadType" }
    ∷ record { key = "clockRate"; step = mandatory is_number_integer "missing codec.clockRate" }
    ∷ record { key = "channels"; step = channels_step kind }
    ∷ parameters_rule
    ∷ feedback_rule
    ∷ []

unfoldable pub validate_codec_parameters : Json → Result Json
validate_codec_parameters = validate_codec codec_parameters_rules
