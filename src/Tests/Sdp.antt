-- ===== src/Tests/Sdp.antt =====
-- A remote session description built, extended and closed.
use libmediasouphandler.Base.{String, true, some, List, [], ◌∷◌, ◌≡◌, refl}
use libmediasouphandler.Base.Text.{to_string, to_string_ℤ, join}
use libmediasouphandler.Base.Result.{Result, ok, err}
use libmediasouphandler.Json.{
  Json, boolean, null, number_unsigned, str, array, object, put, get, find, iterate, const_element,
  member_or_null, traverse, items, length, end, erase, json_eq,
}
use libmediasouphandler.Sdp.MediaSection.{
  MediaSection, new_object, put_ice_parameters, candidate_line, put_all, setup_of, get_mid,
  is_closed, get_object,
}
use libmediasouphandler.Sdp.MediaSection as Section
use libmediasouphandler.Sdp.MediaSection.Codecs.{
  ShowFloat, codec_name, rtp_line, feedback_lines, payloads_of, fmtp_lines, config_of,
}
use libmediasouphandler.Sdp.MediaSection.Offer.{
  new_offer, offer_details, offer_media, rtx_ssrc, ssrc_lines,
}
use libmediasouphandler.Sdp.RemoteSdp.{
  receive, send, place_section, add_media_section, close_media_section, regenerate_bundle_mids,
  index_of, section_at, put_section, put_media, note_first, note_index,
}
use libmediasouphandler.Sdp.RemoteSdp.State.{RemoteSdp, new_remote_sdp, latest_fingerprint}
use libmediasouphandler.Sdp.RemoteSdp.Scan.{bundle_from, first_closed}
use libmediasouphandler.Sdp.RemoteSdp.Store.{lookup, insert, element_at, replace_at, put_at}
use libmediasouphandler.Sdp.Slots.{Slot, position, add_slot, next_slot}
use libmediasouphandler.Sdp.MediaSection.Answer.{new_answer}
use libmediasouphandler.Sdp.Refines.{Refines}
use libmediasouphandler.Sdp.Refines.Recycle.{receive_recycles}
use libmediasouphandler.Sdp.Refines.Call.{Outcome, receive-Outcome, send-Outcome}
use libmediasouphandler.Sdp.Refines.Reach.{Reaches, constructed, received, Reaches-Refines}

abbrev pub show_float : ShowFloat
show_float a k = ""

abbrev pub ice : Json
ice = object (("usernameFragment", str "u") ∷ ("password", str "p") ∷ [])

abbrev pub dtls : Json
dtls = object (
    ("fingerprints", array (object (("algorithm", str "sha-256") ∷ ("value", str "AA") ∷ []) ∷ []))
    ∷ ("role", str "auto")
    ∷ [])

abbrev pub opus : Json
opus = object (
    ("mimeType", str "audio/opus")
    ∷ ("payloadType", number_unsigned 111)
    ∷ ("clockRate", number_unsigned 48000)
    ∷ ("channels", number_unsigned 2)
    ∷ ("parameters", object (("useinbandfec", number_unsigned 1) ∷ []))
    ∷ ("rtcpFeedback", array [])
    ∷ [])

abbrev pub consumed : Json
consumed = object (
    ("codecs", array (opus ∷ []))
    ∷ ("headerExtensions", array [])
    ∷ ("encodings", array (object (("ssrc", number_unsigned 7) ∷ []) ∷ []))
    ∷ ("rtcp", object (("cname", str "c") ∷ []))
    ∷ [])

abbrev pub absent : RemoteSdp
absent = record {
  ice_parameters = null;
  ice_candidates = null;
  dtls_parameters = null;
  sctp_parameters = null;
  media_sections = [];
  mid_to_index = [];
  first_mid = "";
  sdp = record { icelite = true; fingerprint = null; media = []; mids = ""; session_version = 0 };
}

abbrev pub built : Result RemoteSdp → RemoteSdp
built (ok r) = r
built (err e) = absent

unfoldable pub start : RemoteSdp
unfolding new_remote_sdp
start = built (new_remote_sdp ice (array []) dtls null)

unfoldable pub more : String → RemoteSdp → RemoteSdp
unfolding receive
more mid r = (receive show_float mid "audio" consumed "s" "t" r).1

pub start_run : new_remote_sdp ice (array []) dtls null ≡ ok start
unfolding new_remote_sdp start find member_or_null get latest_fingerprint
start_run = refl

-- The section that Receive makes.
abbrev offered : String → RemoteSdp → Result MediaSection
unfolding new_offer
offered mid r =
    new_offer show_float r.ice_parameters r.ice_candidates null mid "audio" consumed "s" "t"

unfoldable pub one : RemoteSdp
unfolding more start
one = more "0" start

abbrev two : RemoteSdp
unfolding more one
two = more "1" one

abbrev one_slot : List Slot
unfolding add_slot
one_slot = add_slot "0" []

abbrev two_slots : List Slot
unfolding add_slot
two_slots = add_slot "1" one_slot

one_run : (receive show_float "0" "audio" consumed "s" "t" start).0 ≡ ok tt
unfolding receive start new_remote_sdp find member_or_null get latest_fingerprint new_offer
    offer_details offer_media put_all new_object put_ice_parameters const_element put iterate
    traverse rtp_line codec_name feedback_lines payloads_of fmtp_lines config_of items join
    to_string to_string_ℤ rtx_ssrc ssrc_lines place_section first_closed add_media_section
    note_first note_index get_mid get_object regenerate_bundle_mids bundle_from is_closed insert
    json_eq
one_run = refl

pub one-Refines : Refines (add_slot "0" []) one
unfolding one more position
one-Refines = Reaches-Refines show_float (add_slot "0" []) one (
    received [] start "0" "audio" consumed "s" "t"
      (constructed ice (array []) dtls null start start_run) refl refl one_run)

two_run : (receive show_float "1" "audio" consumed "s" "t" one).0 ≡ ok tt
unfolding receive one more start new_remote_sdp find member_or_null get latest_fingerprint new_offer
    offer_details offer_media put_all new_object put_ice_parameters const_element put iterate
    traverse rtp_line codec_name feedback_lines payloads_of fmtp_lines config_of items join
    to_string to_string_ℤ rtx_ssrc ssrc_lines place_section first_closed add_media_section
    note_first note_index get_mid get_object regenerate_bundle_mids bundle_from is_closed insert
    json_eq
two_run = refl

two_Reaches : Reaches show_float two_slots two
unfolding two_slots one_slot two one more position add_slot
two_Reaches =
    received one_slot one "1" "audio" consumed "s" "t"
      (received [] start "0" "audio" consumed "s" "t"
        (constructed ice (array []) dtls null start start_run) refl refl one_run)
      refl refl two_run

Reaches-Refines_example : Refines two_slots two
Reaches-Refines_example = Reaches-Refines show_float two_slots two two_Reaches

two-Refines : Refines two_slots two
two-Refines = Reaches-Refines show_float two_slots two two_Reaches

receive-Outcome_example :
    Outcome
      (add_slot "2" two_slots)
      two
      (offered "2" two)
      (receive show_float "2" "audio" consumed "s" "t" two)
unfolding position two_slots one_slot add_slot offered
receive-Outcome_example =
    receive-Outcome show_float two_slots two "2" "audio" consumed "s" "t" two-Refines refl refl

-- The offer that a producer's audio makes.
abbrev local_offer : Json
local_offer = object (
    ("mid", str "2")
    ∷ ("type", str "audio")
    ∷ ("protocol", str "UDP/TLS/RTP/SAVPF")
    ∷ ("ext", array [])
    ∷ [])

send-Outcome_example :
    Outcome
      (add_slot "2" two_slots)
      two
      (new_answer show_float
        (some (object (("opusStereo", boolean true) ∷ [])))
        two.ice_parameters
        two.ice_candidates
        two.dtls_parameters
        two.sctp_parameters
        local_offer
        consumed
        consumed)
      (send show_float local_offer
        (next_slot 0 two_slots).1
        consumed
        consumed
        (some (object (("opusStereo", boolean true) ∷ [])))
        two)
unfolding position two_slots one_slot add_slot find get
send-Outcome_example =
    send-Outcome show_float two_slots two "2" local_offer consumed consumed
      (some (object (("opusStereo", boolean true) ∷ []))) two-Refines refl refl refl

abbrev section_of : Result MediaSection → MediaSection
section_of (ok m) = m
section_of (err e) = record { side = Section.offer; object = end }

-- Two sections, the second of them closed.
abbrev shut : RemoteSdp
unfolding close_media_section two
shut = (close_media_section "1" two).1

offered_run : offered "2" shut ≡ ok (section_of (offered "2" shut))
unfolding offered shut two close_media_section index_of section_at lookup element_at Section.close
    Section.disable put_section put_media replace_at put_at erase receive one more start
    new_remote_sdp find member_or_null get latest_fingerprint new_offer offer_details offer_media
    put_all new_object put_ice_parameters const_element put iterate traverse rtp_line codec_name
    feedback_lines payloads_of fmtp_lines config_of items join to_string to_string_ℤ rtx_ssrc
    ssrc_lines place_section first_closed add_media_section note_first note_index get_mid get_object
    regenerate_bundle_mids bundle_from is_closed insert json_eq
offered_run = refl

receive_recycles_example :
    ((receive show_float "2" "audio" consumed "s" "t" (close_media_section "1" two).1).0 ≡ ok tt)
    × (length
          (receive show_float "2" "audio" consumed "s" "t"
            (close_media_section "1" two).1).1.media_sections
        ≡ length two.media_sections)
unfolding position two_slots one_slot add_slot shut offered
receive_recycles_example =
    receive_recycles show_float two_slots two "1" "2" 0 "audio" consumed "s" "t"
      (section_of (offered "2" shut)) two-Refines refl refl refl offered_run
