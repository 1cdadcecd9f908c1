-- ===== src/Tests/Sections.antt =====
-- Sections of the remote description that are received and closed by the handlers of Tests.Handlers.
use libmediasouphandler.Base.{ℕ, false, some, [], ◌∷◌, ◌≡◌, refl, ◌⊎◌}
use libmediasouphandler.Base.Text.{to_string, to_string_ℤ, join, matches_nocase}
use libmediasouphandler.Base.Result.{Error, ok, err}
use libmediasouphandler.Json.{
  null, array, put, get, find, iterate, const_element, member_or_null, traverse, items, erase,
  json_eq, element, find_if, assign_member,
}
use libmediasouphandler.Sdp.MediaSection.{
  new_object, put_ice_parameters, put_all, get_mid, is_closed, get_object, set_dtls_role,
}
use libmediasouphandler.Sdp.MediaSection.Codecs.{
  codec_name, rtp_line, feedback_lines, payloads_of, fmtp_lines, config_of,
}
use libmediasouphandler.Sdp.MediaSection.Offer.{
  new_offer, offer_details, offer_media, rtx_ssrc, ssrc_lines,
}
use libmediasouphandler.Sdp.RemoteSdp.{
  receive, get_sdp, update_dtls_role, place_section, add_media_section, regenerate_bundle_mids,
  put_section, put_media, note_first, note_index, update_from, mark_icelite,
}
use libmediasouphandler.Sdp.RemoteSdp.Scan.{bundle_from, first_closed}
use libmediasouphandler.Sdp.Utils.{extract_dtls_parameters, fingerprint_of, role_of}
use libmediasouphandler.Sdp.Utils.Parameters.{
  apply_codec_parameters, apply_codec, apply_to_line, with_stereo, change_line, is_codec_line,
  config_text,
}
use libmediasouphandler.Handler.Answer.{settle_answer, change_section, cname_of}
use libmediasouphandler.Sdp.RemoteSdp.State.{new_remote_sdp, latest_fingerprint, sdp_object}
use libmediasouphandler.Sdp.RemoteSdp.Store.{lookup, insert, replace_at, put_at}
use libmediasouphandler.Sdp.Slots.{position, add_slot, close_slot}
use libmediasouphandler.Sdp.Refines.{Refines}
use libmediasouphandler.Sdp.Refines.Reach.{Reaches-Refines, constructed}
use libmediasouphandler.Handler.State.{Handler, local_object}
use libmediasouphandler.Handler.{ensure_transport, setup_transport}
use libmediasouphandler.Handler.Senders.{stop_sending}
use libmediasouphandler.Handler.Recv.{
  RecvResult, local_id_of, receive_as, note_received, note_transceiver, negotiate_receive, with_mid,
  offer_remote, receive_track, stop_receiving,
}
use libmediasouphandler.Handler.Sections.{receive_track-Settled}
use libmediasouphandler.Handler.Stopped.{stop_sending-Stands}
use libmediasouphandler.Handler.Received.{receive_track-Noted, receive-stop_receiving}
use libmediasouphandler.Tests.Sdp.{
  show_float, ice, dtls, consumed, start, start_run, one, one-Refines,
}
use libmediasouphandler.Tests.Handlers.{Toy, peer, lib, toy, handler, with_track}

pub start-Refines : Refines [] start
start-Refines =
    Reaches-Refines show_float [] start (constructed ice (array []) dtls null start start_run)

-- The application has refused once, and connects now.
abbrev asked_before : Handler Toy
asked_before = record handler { pc = record toy { log = false ∷ [] } }

abbrev first_received : RecvResult
first_received = record { local_id = "0"; rtp_receiver = 0; track = 0 }

receive_run : (receive_track peer lib "t" "audio" consumed asked_before).0 ≡ ok first_received
unfolding receive_track local_id_of receive_as note_received note_transceiver negotiate_receive
    offer_remote with_mid settle_answer change_section cname_of ensure_transport setup_transport
    local_object extract_dtls_parameters fingerprint_of role_of assign_member erase
    apply_codec_parameters apply_codec apply_to_line with_stereo change_line is_codec_line
    config_text matches_nocase find_if element get_sdp sdp_object update_dtls_role update_from
    mark_icelite set_dtls_role lookup receive start new_remote_sdp find member_or_null get
    latest_fingerprint new_offer offer_details offer_media put_all new_object put_ice_parameters
    const_element put iterate traverse rtp_line codec_name feedback_lines payloads_of fmtp_lines
    config_of items join to_string to_string_ℤ rtx_ssrc ssrc_lines place_section first_closed
    add_media_section note_first note_index get_mid get_object regenerate_bundle_mids bundle_from
    is_closed insert json_eq put_section put_media replace_at put_at
receive_run = refl

receive_track-Noted_example :
    let out = receive_track peer lib "t" "audio" consumed asked_before in
    (first_received.local_id ≡ "0")
    × (t : ℕ) × (lookup first_received.local_id out.1.map_mid_transceiver ≡ some t)
    × (peer.mid out.1.pc t ≡ some first_received.local_id)
    × (first_received.track ≡ peer.receiver_track (peer.receiver t))
unfolding local_id_of to_string find get
receive_track-Noted_example =
    receive_track-Noted peer lib "t" "audio" consumed asked_before first_received receive_run

receive_track-Settled_example :
    let out = receive_track peer lib "t" "audio" consumed asked_before in
    Refines (add_slot "0" []) out.1.remote_sdp
    ⊎ ((e : Error) × (out.0 ≡ err e) × Refines [] out.1.remote_sdp)
unfolding local_id_of to_string find get position
receive_track-Settled_example =
    receive_track-Settled peer lib [] "t" "audio" consumed asked_before start-Refines refl refl

receive-stop_receiving_example :
    Refines
      (close_slot "0" (add_slot "0" []))
      (stop_receiving peer lib "0"
        (receive_track peer lib "t" "audio" consumed asked_before).1).1.remote_sdp
unfolding local_id_of to_string find get position
receive-stop_receiving_example =
    receive-stop_receiving peer lib [] "t" "audio" consumed asked_before first_received
      start-Refines refl refl receive_run

abbrev sending : Handler Toy
sending = record with_track { remote_sdp = one }

stop_sending-Stands_example :
    Refines (close_slot "0" (add_slot "0" [])) (stop_sending peer lib "0" sending).1.remote_sdp
unfolding lookup position add_slot
stop_sending-Stands_example =
    stop_sending-Stands peer lib (add_slot "0" []) "0" 0 0 sending one-Refines refl refl refl
