-- ===== src/Tests/Loaded.antt =====
-- A device loaded, and the theorems on Load applied.
use libmediasouphandler.Base.{◌≡◌, refl}
use libmediasouphandler.Base.Result.{ok}
use libmediasouphandler.Json.{
  get, put, erase, assign, traverse, element, const_element, iterate, find, find_value,
  member_or_null, find_if, flat_map, json_eq,
}
use libmediasouphandler.Ortc.Mime.{media_type, is_rtx_mime}
use libmediasouphandler.Base.Text.{matches_nocase}
use libmediasouphandler.Ortc.Rule.{
  run, validate, mandatory, optional, fill, default_to, then_step, each, within,
}
use libmediasouphandler.Ortc.Validate.Codec.{
  validate_codec, validate_codec_capability, mime_kind, channels_step, codec_parameters_step,
}
use libmediasouphandler.Ortc.Validate.Params.{validate_rtp_capabilities}
use libmediasouphandler.Ortc.Validate.Sctp.{validate_sctp_capabilities, validate_num_streams}
use libmediasouphandler.Ortc.Match.{
  is_rtx_codec, match_codecs, match_parameters, reduce_rtcp_feedback,
}
use libmediasouphandler.Ortc.Extended.{
  extended_codec, search_local, extend_one, extend_codecs, find_rtx, match_rtx,
  get_extended_rtp_capabilities,
}
use libmediasouphandler.Ortc.Recv.{recv_codec, recv_codecs_of, get_recv_rtp_capabilities}
use libmediasouphandler.Ortc.Send.{has_kind, can_send}
use libmediasouphandler.Device.{Device, new_device, load, load_router}
use libmediasouphandler.Device.Loading.{LoadSpec, load_consistent}
use libmediasouphandler.Ortc.Extended.Rtx.{ExtendedSpec, extended_from_matches}
use libmediasouphandler.Tests.Data.{caps, h264, value_of}

-- The device that a Load of the same capabilities on both sides leaves.
abbrev loaded_device : Device
loaded_device = (load h264 (ok caps) caps new_device).1

loads : load h264 (ok caps) caps new_device ≡ (ok tt, loaded_device)
unfolding load load_router validate_rtp_capabilities validate_codec_capability validate_codec
    mime_kind media_type channels_step codec_parameters_step validate run mandatory optional fill
    default_to then_step each get put erase assign traverse get_extended_rtp_capabilities
    extended_codec search_local extend_one extend_codecs find_rtx match_rtx is_rtx_codec is_rtx_mime
    matches_nocase match_codecs match_parameters reduce_rtcp_feedback element const_element iterate
    find find_value member_or_null find_if flat_map json_eq can_send has_kind
    get_recv_rtp_capabilities recv_codecs_of recv_codec validate_sctp_capabilities
    validate_num_streams within
loads = refl

extended_from_matches_example :
    ExtendedSpec h264 caps caps (value_of (get_extended_rtp_capabilities h264 caps caps))
unfolding validate_rtp_capabilities validate_codec_capability validate_codec mime_kind media_type
    channels_step codec_parameters_step validate run mandatory optional fill default_to then_step
    each get put erase assign traverse get_extended_rtp_capabilities extended_codec search_local
    extend_one extend_codecs find_rtx match_rtx is_rtx_codec is_rtx_mime matches_nocase match_codecs
    match_parameters reduce_rtcp_feedback element const_element iterate find find_value
    member_or_null find_if flat_map json_eq within
extended_from_matches_example =
    extended_from_matches h264 caps caps (value_of (get_extended_rtp_capabilities h264 caps caps))
      refl

load_consistent_example : LoadSpec h264 (ok caps) caps new_device loaded_device
load_consistent_example = load_consistent h264 (ok caps) caps new_device loaded_device loads

loaded_LoadSpec : LoadSpec h264 (ok caps) caps new_device loaded_device
loaded_LoadSpec = load_consistent h264 (ok caps) caps new_device loaded_device loads
