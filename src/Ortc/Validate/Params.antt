-- ===== src/Ortc/Validate/Params.antt =====
-- validateRtpCapabilities, validateRtpParameters, validateRtpEncodingParameters and
-- validateRtcpParameters.
use libmediasouphandler.Base.{String, true, false, List, [], ◌∷◌}
use libmediasouphandler.Base.Result.{Result}
use libmediasouphandler.Json.{
  Json, boolean, obj, end, array, is_string, is_boolean, is_number_integer, is_array, is_object,
}
use libmediasouphandler.Ortc.Rule.{
  Rule, validate, mandatory, optional, fill, default_to, then_step, each, within,
}
use libmediasouphandler.Ortc.Validate.Codec.{validate_codec_capability, validate_codec_parameters}
use libmediasouphandler.Ortc.Validate.Extension.{
  is_text, validate_header_extension, validate_header_extension_parameters,
}

-- An array whose elements a validator goes through; absent, it is filled with the empty array.
abbrev pub array_rule : String → String → (Json → Result Json) → Rule
array_rule key message f = record {
  key = key;
  step = then_step (fill is_array message (array [])) (each f);
}

abbrev pub rtp_capabilities_rules : List Rule
rtp_capabilities_rules =
    array_rule "codecs" "caps.codecs is not an array" validate_codec_capability
    ∷ array_rule "headerExtensions" "caps.headerExtensions is not an array"
        validate_header_extension
    ∷ []

unfoldable pub validate_rtp_capabilities : Json → Result Json
validate_rtp_capabilities = validate "caps is not an object" rtp_capabilities_rules

abbrev pub rtx_rules : List Rule
rtx_rules =
    record { key = "ssrc"; step = mandatory is_number_integer "missing encoding.rtx.ssrc" } ∷ []

abbrev pub encoding_rules : List Rule
encoding_rules =
    record { key = "ssrc"; step = optional is_number_integer "invalid encoding.ssrc" }
    ∷ record { key = "rid"; step = optional is_text "invalid encoding.rid" }
    ∷ record { key = "rtx"; step = within (validate "invalid encoding.rtx" rtx_rules) }
    ∷ record { key = "dtx"; step = default_to is_boolean (boolean false) }
    ∷ record { key = "scalabilityMode"; step = optional is_text "invalid encoding.scalabilityMode" }
    ∷ []

unfoldable pub validate_encoding : Json → Result Json
validate_encoding = validate "encoding is not an object" encoding_rules

abbrev pub rtcp_rules : List Rule
rtcp_rules =
    record { key = "cname"; step = optional is_string "invalid rtcp.cname" }
    ∷ record { key = "reducedSize"; step = default_to is_boolean (boolean true) }
    ∷ []

unfoldable pub validate_rtcp : Json → Result Json
validate_rtcp = validate "rtcp is not an object" rtcp_rules

abbrev pub rtp_parameters_rules : List Rule
rtp_parameters_rules =
    record { key = "mid"; step = optional is_text "params.mid is not a string" }
    ∷ record {
      key = "codecs";
      step =
          then_step (mandatory is_array "missing params.codecs") (each validate_codec_parameters);
    }
    ∷ array_rule "headerExtensions" "params.headerExtensions is not an array"
        validate_header_extension_parameters
    ∷ array_rule "encodings" "params.encodings is not an array" validate_encoding
    ∷ record {
      key = "rtcp";
      step =
          then_step (fill is_object "params.rtcp is not an object" (obj end))
            (within validate_rtcp);
    }
    ∷ []

unfoldable pub validate_rtp_parameters : Json → Result Json
validate_rtp_parameters = validate "params is not an object" rtp_parameters_rules
