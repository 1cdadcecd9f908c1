-- ===== src/Tests/Connecting.antt =====
-- The run of data channels that the handler of Tests.Handlers sends.
use libmediasouphandler.Base.{true, false, false, [], ◌∷◌, ◌≡◌, refl}
use libmediasouphandler.Base.Text.{to_string, to_string_ℤ, join, matches_nocase}
use libmediasouphandler.Json.{
  assign, put, get, find, iterate, const_element, member_or_null, traverse, items, erase, json_eq,
  element, find_if, assign_member,
}
use libmediasouphandler.Sdp.MediaSection.{
  new_object, put_ice_parameters, put_all, get_mid, is_closed, get_object, set_dtls_role,
}
use libmediasouphandler.Sdp.MediaSection.Codecs.{
  codec_name, rtp_line, feedback_lines, payloads_of, fmtp_lines, config_of,
}
use libmediasouphandler.Sdp.MediaSection.Offer.{
  new_offer, offer_details, offer_media, rtx_ssrc, ssrc_lines,
}
use libmediasouphandler.Sdp.RemoteSdp.{
  receive, get_sdp, update_dtls_role, place_section, add_media_section, regenerate_bundle_mids,
  put_section, put_media, note_first, note_index, update_from, mark_icelite,
}
use libmediasouphandler.Sdp.RemoteSdp.Scan.{bundle_from, first_closed}
use libmediasouphandler.Sdp.Utils.{extract_dtls_parameters, fingerprint_of, role_of}
use libmediasouphandler.Sdp.Utils.Parameters.{
  apply_codec_parameters, apply_codec, apply_to_line, with_stereo, change_line, is_codec_line,
  config_text,
}
use libmediasouphandler.Sdp.RemoteSdp.State.{new_remote_sdp, latest_fingerprint, sdp_object}
use libmediasouphandler.Sdp.RemoteSdp.Store.{lookup, insert, replace_at, put_at}
use libmediasouphandler.Handler.State.{local_object}
use libmediasouphandler.Handler.{ensure_transport, setup_transport}
use libmediasouphandler.Handler.Senders.{stop_sending}
use libmediasouphandler.Tests.Sdp.{start}
use libmediasouphandler.Handler.Runs.{send_run, send_step}
use libmediasouphandler.Handler.Channels.{send_channel, send_section, application_of}
use libmediasouphandler.Handler.Send.{answer_offer, offer_again}
use libmediasouphandler.Handler.Senders.{stop_sending, stop_transceiver, close_sending}
use libmediasouphandler.Handler.{transceiver_of}
use libmediasouphandler.Sdp.RemoteSdp.{
  get_next_media_section_idx, send_sctp_association, close_media_section,
}
use libmediasouphandler.SendTransport.{stream_parameters, next_stream_id}
use libmediasouphandler.Ortc.Rule.{run, mandatory, default_to}
use libmediasouphandler.Ortc.Validate.Sctp.{validate_sctp_stream_parameters, settle_ordered}
use libmediasouphandler.Tests.Handlers.{peer, lib, sender, sent_calls}

connected_then : (send_run peer lib sent_calls sender).base.pc.log ≡ true ∷ false ∷ []
unfolding assign send_run send_step send_channel send_section application_of answer_offer
    offer_again stop_sending stop_transceiver close_sending transceiver_of
    get_next_media_section_idx send_sctp_association close_media_section stream_parameters
    next_stream_id run mandatory default_to validate_sctp_stream_parameters settle_ordered
    ensure_transport setup_transport local_object extract_dtls_parameters fingerprint_of role_of
    assign_member erase apply_codec_parameters apply_codec apply_to_line with_stereo change_line
    is_codec_line config_text matches_nocase find_if element get_sdp sdp_object update_dtls_role
    update_from mark_icelite set_dtls_role lookup receive start new_remote_sdp find member_or_null
    get latest_fingerprint new_offer offer_details offer_media put_all new_object put_ice_parameters
    const_element put iterate traverse rtp_line codec_name feedback_lines payloads_of fmtp_lines
    config_of items join to_string to_string_ℤ rtx_ssrc ssrc_lines place_section first_closed
    add_media_section note_first note_index get_mid get_object regenerate_bundle_mids bundle_from
    is_closed insert json_eq put_section put_media replace_at put_at
connected_then = refl
