-- ===== src/Ortc/Validate/Options.antt =====
-- validateProducerCodecOptions.
use libmediasouphandler.Base.{String, Bool, List, [], ◌∷◌}
use libmediasouphandler.Base.Result.{Result}
use libmediasouphandler.Json.{Json, is_boolean, is_number_unsigned, is_number_integer}
use libmediasouphandler.Ortc.Rule.{Rule, validate, optional}

abbrev option_rule : String → (Json → Bool) → String → Rule
option_rule key p message = record { key = key; step = optional p message }

abbrev pub codec_options_rules : List Rule
codec_options_rules =
    option_rule "opusStereo" is_boolean "invalid params.opusStereo"
    ∷ option_rule "opusFec" is_boolean "invalid params.opusFec"
    ∷ option_rule "opusDtx" is_boolean "invalid params.opusDtx"
    ∷ option_rule "opusCbr" is_boolean "invalid params.opusCbr"
    ∷ option_rule "opusMaxPlaybackRate" is_number_unsigned "invalid params.opusMaxPlaybackRate"
    ∷ option_rule "opusMaxAverageBitrate" is_number_unsigned "invalid params.opusMaxAverageBitrate"
    ∷ option_rule "opusPtime" is_number_integer "invalid params.opusPtime"
    ∷ option_rule "videoGoogleStartBitrate" is_number_integer
        "invalid params.videoGoogleStartBitrate"
    ∷ option_rule "videoGoogleMaxBitrate" is_number_integer "invalid params.videoGoogleMaxBitrate"
    ∷ option_rule "videoGoogleMinBitrate" is_number_integer "invalid params.videoGoogleMinBitrate"
    ∷ []

unfoldable pub validate_producer_codec_options : Json → Result Json
validate_producer_codec_options = validate "params is not an object" codec_options_rules
