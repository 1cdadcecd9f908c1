-- ===== src/Tests/Validators.antt =====
-- Validators run, and their theorems applied.
use Prim.Native.String.{slice}
use libmediasouphandler.Base.{true, some, ◌&&◌, ◌||◌, false, none, ◌≡◌, ◌≢◌, refl}
use libmediasouphandler.Base.Result.{ok}
use libmediasouphandler.Json.{
  Json, Fields, str, is_number_integer, obj, get, put, erase, assign, traverse, contains,
}
use libmediasouphandler.Ortc.Mime.{media_type}
use libmediasouphandler.Ortc.Rule.{
  run, validate, mandatory, optional, fill, default_to, then_step, each, within,
}
use libmediasouphandler.Ortc.Validate.Codec.{
  validate_codec, validate_codec_capability, validate_codec_parameters, mime_kind, channels_step,
  codec_parameters_step,
}
use libmediasouphandler.Ortc.Validate.Params.{
  validate_rtp_capabilities, validate_rtp_parameters, validate_rtcp,
}
use libmediasouphandler.Ortc.Validate.Sctp.{validate_sctp_stream_parameters, settle_ordered}
use libmediasouphandler.Ortc.Validate.Idempotent.{rtp_capabilities_idempotent}
use libmediasouphandler.Ortc.Validate.Typed.{IsRtpCapabilities, validate_rtp_capabilities-Typed}
use libmediasouphandler.Ortc.Validate.Kind.{with_mime, mixed_case_loses_channels}
use libmediasouphandler.Ortc.Validate.Stream.{settled_order, stream_ordered}
use libmediasouphandler.Tests.Data.{value_of, fields_of, caps, parameters, opus_fields, stream}

abbrev valid_caps : Json
valid_caps = value_of (validate_rtp_capabilities caps)

abbrev valid_parameters : Json
valid_parameters = value_of (validate_rtp_parameters parameters)

caps_valid : validate_rtp_capabilities caps ≡ ok valid_caps
unfolding validate_rtp_capabilities validate_codec_capability validate_codec mime_kind media_type
    channels_step codec_parameters_step validate run mandatory optional fill default_to then_step
    each get put erase assign traverse
caps_valid = refl

rtp_capabilities_idempotent_example : validate_rtp_capabilities valid_caps ≡ ok valid_caps
rtp_capabilities_idempotent_example = rtp_capabilities_idempotent caps valid_caps caps_valid

validate_rtp_capabilities-Typed_example : IsRtpCapabilities valid_caps
validate_rtp_capabilities-Typed_example = validate_rtp_capabilities-Typed caps valid_caps caps_valid

parameters_valid : validate_rtp_parameters parameters ≡ ok valid_parameters
unfolding validate_rtp_parameters validate_codec_parameters validate_codec mime_kind media_type
    channels_step codec_parameters_step validate_rtcp validate run mandatory optional fill
    default_to then_step each within get put erase assign traverse
parameters_valid = refl

not_audio : slice "Audio/opus" 0 5 ≢ "audio"
not_audio e = cc

abbrev valid_opus : Fields
valid_opus = fields_of (validate_codec_capability (obj opus_fields))

mixed_case_loses_channels_example :
    ((v : Json) × (get "channels" valid_opus ≡ some v) × (is_number_integer v ≡ true))
    × (gs : Fields) × (validate_codec_capability (obj (with_mime "Audio/opus" opus_fields))
        ≡ ok (obj gs))
    × (get "kind" gs ≡ some (str (slice "Audio/opus" 0 5)))
    × (get "channels" gs ≡ none)
unfolding validate_codec_capability validate_codec mime_kind media_type channels_step
    codec_parameters_step run mandatory optional default_to then_step each get put erase assign
    traverse
mixed_case_loses_channels_example =
    mixed_case_loses_channels opus_fields valid_opus "audio/opus" "Audio/opus" refl refl refl
      not_audio refl

stream_ordered_example :
    ((contains "maxPacketLifeTime" stream && contains "maxRetransmits" stream) ≡ false)
    × (get "ordered" (fields_of (validate_sctp_stream_parameters (obj stream)))
        ≡ settled_order
            (get "ordered" stream)
            (contains "maxPacketLifeTime" stream || contains "maxRetransmits" stream))
unfolding validate_sctp_stream_parameters settle_ordered run mandatory default_to get put erase
    assign contains
stream_ordered_example =
    stream_ordered stream (fields_of (validate_sctp_stream_parameters (obj stream))) refl
