-- ===== src/Tests/Matching.antt =====
-- Codecs matched, and what the capabilities give for them.
use libmediasouphandler.Base.{String, true, some, List, [], ◌∷◌, ◌≡◌, ◌≢◌, ◌↔◌, refl}
use libmediasouphandler.Base.Text.{matches_nocase}
use libmediasouphandler.Base.Result.{err, json_error, undefined}
use libmediasouphandler.Json.{
  Json, Fields, obj, end, get, put, element, const_element, iterate, find, find_value,
  member_or_null, assign_member, find_if, filter, flat_map, traverse, json_eq,
}
use libmediasouphandler.Ortc.Match.{match_codecs, match_parameters}
use libmediasouphandler.Ortc.Reduce.{reduce_codecs}
use libmediasouphandler.Ortc.Reduce.Cases.{Differs, reduce_codecs_last}
use libmediasouphandler.Ortc.Extended.{extended_extension, local_direction}
use libmediasouphandler.Ortc.Send.{
  has_kind, send_codec, send_rtx_codec, send_codecs, send_extensions_of, sending_parts,
  get_sending_rtp_parameters, get_sending_remote_rtp_parameters, reduce_codec_feedback,
  congestion_control, can_send,
}
use libmediasouphandler.Ortc.Send.First.{SendingSpec, sending_takes_first}
use libmediasouphandler.Ortc.Send.Feedback.{RemoteSpec, remote_feedback_reduced}
use libmediasouphandler.Ortc.Send.Can.{can_send_iff}
use libmediasouphandler.Ortc.Recv.{
  recv_codec, recv_rtx_codec, recv_codecs_of, recv_extensions_of, get_recv_rtp_capabilities,
}
use libmediasouphandler.Ortc.Recv.Codecs.{RecvSpec, recv_keeps}
use libmediasouphandler.Ortc.Recv.Direction.{NoDirection, unknown_direction_undefined}
use libmediasouphandler.Tests.Data.{
  value_of, parts_of, texts_differ, extended, extension, h264, codec,
}

sending_takes_first_example :
    SendingSpec "audio" extended (value_of (get_sending_rtp_parameters "audio" extended))
unfolding get_sending_rtp_parameters sending_parts has_kind send_codec send_rtx_codec send_codecs
    send_extensions_of const_element find get put iterate find_if flat_map
sending_takes_first_example =
    sending_takes_first "audio" extended (value_of (get_sending_rtp_parameters "audio" extended))
      refl

remote_feedback_reduced_example :
    RemoteSpec "audio" extended (value_of (get_sending_remote_rtp_parameters "audio" extended))
unfolding get_sending_remote_rtp_parameters sending_parts has_kind send_codec send_rtx_codec
    send_codecs send_extensions_of reduce_codec_feedback congestion_control member_or_null
    find_value assign_member const_element element find get put iterate find_if filter flat_map
    traverse
remote_feedback_reduced_example =
    remote_feedback_reduced "audio" extended
      (value_of (get_sending_remote_rtp_parameters "audio" extended)) refl

-- What is sent of the audio that there is.
abbrev sent : List Json × List Json
sent = parts_of (sending_parts "localParameters" "audio" extended)

can_send_iff_example : (true ≡ true) ↔ (sent.0 ≢ [])
unfolding can_send get_sending_rtp_parameters sending_parts has_kind send_codec send_rtx_codec
    send_codecs send_extensions_of const_element find get put iterate find_if flat_map
can_send_iff_example = can_send_iff "audio" extended true sent.0 sent.1 refl refl

recv_keeps_example : RecvSpec extended (value_of (get_recv_rtp_capabilities extended))
unfolding get_recv_rtp_capabilities recv_codec recv_rtx_codec recv_codecs_of recv_extensions_of
    const_element find get put iterate flat_map
recv_keeps_example = recv_keeps extended (value_of (get_recv_rtp_capabilities extended)) refl

abbrev sideways : Json
sideways = extension "sideways"

abbrev no_direction : String
no_direction = "sideways"

sideways-NoDirection : NoDirection no_direction
sideways-NoDirection = (
  texts_differ no_direction "sendrecv" refl,
  texts_differ no_direction "recvonly" refl,
  texts_differ no_direction "sendonly" refl,
  texts_differ no_direction "inactive" refl,
)

unknown_direction_undefined_example :
    recv_extensions_of (value_of (extended_extension (extension "sendrecv") sideways))
    ≡ err undefined
unfolding extended_extension local_direction member_or_null find get put
unknown_direction_undefined_example =
    unknown_direction_undefined (extension "sendrecv") sideways
      (value_of (extended_extension (extension "sendrecv") sideways)) no_direction refl
      sideways-NoDirection refl

abbrev cap : Fields
cap = fields (codec "video/VP8" 90000)
  where
    fields : Json → Fields
    fields (obj fs) = fs
    fields j = end

opus-Differs : Differs h264 cap (codec "audio/opus" 48000)
unfolding match_codecs find_value element find get
opus-Differs = (codec "audio/opus" 48000, refl)

reduce_codecs_last_example :
    reduce_codecs h264 (codec "audio/opus" 48000 ∷ codec "video/vp8" 90000 ∷ []) (some (obj cap))
    ≡ err (json_error 305)
unfolding match_codecs match_parameters matches_nocase find_value element find get json_eq
reduce_codecs_last_example =
    reduce_codecs_last h264 cap (codec "audio/opus" 48000 ∷ []) (codec "video/vp8" 90000)
      (codec "video/vp8" 90000) (obj cap) (opus-Differs, tt) refl
