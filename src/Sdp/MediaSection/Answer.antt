-- ===== src/Sdp/MediaSection/Answer.antt =====
-- AnswerMediaSection: the section that answers what is sent.
use libmediasouphandler.Base.{
  String, Bool, true, false, Option, none, some, List, [], ◌∷◌, ◌++◌, ◌==◌, if◌then◌else◌,
}
use libmediasouphandler.Base.Result.{Result, ok, ◌>>=◌}
use libmediasouphandler.Json.{
  Json, int, str, is_object, is_array, array, object, iterate, const_element, find, find_value,
  get_string, json_eq, member_or_null, find_if, flat_map,
}
use libmediasouphandler.Ortc.Extended.{with_member}
use libmediasouphandler.Sdp.MediaSection.{MediaSection, answer, new_object, setup_of, put_all}
use libmediasouphandler.Sdp.MediaSection.Codecs.{
  ShowFloat, CodecLines, codec_members, rtp_line, feedback_lines, payloads_of, extension_line,
  fmtp_lines, connection, data_members, is_media,
}
use libmediasouphandler.Sdp.MediaSection.Options.{given_options}

abbrev pub same_uri : Json → Json → Result Bool
same_uri ext local = do
  uri ← const_element "uri" local
  uri' ← member_or_null "uri" ext
  ok (json_eq uri uri')

abbrev is_found : Option Json → Bool
is_found none = false
is_found (some v) = true

-- Whether the offer has the header extension.
unfoldable pub in_offer : Json → Json → Result Bool
unfolding const_element find_if
in_offer offer_media ext = do
  exts ← const_element "ext" offer_media
  found ← find_if (same_uri ext) (iterate exts)
  ok (is_found found)

-- The line of a value that passes the test, or none.
abbrev pub line_if : (Json → Result Bool) → (Json → Result Json) → Json → Result (List Json)
line_if test line value = do
  kept ← test value
  if kept then (do made ← line value; ok (made ∷ [])) else ok []

-- Header extensions that the offer has not are left out.
unfoldable pub extension_lines : Json → Json → Result (List Json)
unfolding in_offer flat_map
extension_lines offer_media parameters = do
  exts ← member_or_null "headerExtensions" parameters
  flat_map (line_if (in_offer offer_media) (extension_line member_or_null)) (iterate exts)

abbrev pub mixed_of : Option Json → List (String × Json)
mixed_of (some (str s)) = ("extmapAllowMixed", str "extmap-allow-mixed") ∷ []
mixed_of _ = []

abbrev pub is_sent : Json → Result Bool
is_sent rid = do direction ← const_element "direction" rid; ok (json_eq direction (str "send"))

abbrev pub rid_line : Json → Result Json
rid_line rid = do
  id ← const_element "id" rid
  ok (object (("id", id) ∷ ("direction", str "recv") ∷ []))

abbrev pub simulcast_lines : Json → Json → Result (List (String × Json))
simulcast_lines simulcast rids = do
  list1 ← const_element "list1" simulcast
  lines ← flat_map (line_if is_sent rid_line) (iterate rids)
  ok (
      ("simulcast", object (("dir1", str "recv") ∷ ("list1", list1) ∷ []))
      ∷ ("rids", array lines)
      ∷ [])

unfoldable pub with_rids : Json → Json → Result (List (String × Json))
unfolding find_value flat_map
with_rids simulcast offer_media = do
  rids ← find_value "rids" offer_media
  if is_array rids then simulcast_lines simulcast rids else ok []

-- The streams of simulcast that the offer sends are received.
unfoldable pub simulcast_members : Json → Result (List (String × Json))
unfolding find with_rids
simulcast_members offer_media = elim (find "simulcast" offer_media) [
  | none ↦ ok []
  | some simulcast ↦ if is_object simulcast then with_rids simulcast offer_media else ok []
]

module _ (show_float : ShowFloat) (options : Option Json) where
  -- One codec of the answer, and the offer's RTP parameters after its options.
  unfoldable pub answer_codec : Json → Json → Result (Json × CodecLines)
  unfolding given_options
  answer_codec offer codec = do
    rtp ← rtp_line member_or_null codec
    parameters ← member_or_null "parameters" codec
    (offer', parameters') ← given_options options offer codec parameters
    payload ← member_or_null "payloadType" codec
    fmtp ← fmtp_lines show_float payload parameters'
    feedback ← feedback_lines member_or_null codec
    ok (offer', record { rtp = rtp; fmtp = fmtp; feedback = feedback })

  unfoldable pub answer_codecs : Json → List Json → Result (Json × List CodecLines)
  unfolding answer_codec
  answer_codecs offer [] = ok (offer, [])
  answer_codecs offer (codec ∷ rest) = do
    (offer', lines) ← answer_codec offer codec
    (offer'', more) ← answer_codecs offer' rest
    ok (offer'', lines ∷ more)

  -- The members that describe the media, and the offer's RTP parameters. The answer's RTP parameters
  -- are read by operator[] too; the nulls that it puts in are read as nulls again.
  unfoldable pub answer_media : Json → Json → Json → Result (Json × List (String × Json))
  unfolding answer_codecs extension_lines simulcast_members find
  answer_media offer_media offer parameters = do
    codecs ← member_or_null "codecs" parameters
    (offer', lines) ← answer_codecs offer (iterate codecs)
    payloads ← payloads_of member_or_null (iterate codecs)
    exts ← extension_lines offer_media parameters
    simulcast ← simulcast_members offer_media
    ok (
      offer',
      ("direction", str "recvonly") ∷ codec_members lines
          ++ (("payloads", str payloads) ∷ ("ext", array exts) ∷ [])
          ++ mixed_of (find "extmapAllowMixed" offer_media)
          ++ simulcast
          ++ (("rtcpMux", str "rtcp-mux") ∷ ("rtcpRsize", str "rtcp-rsize") ∷ []),
    )

  unfoldable pub answer_details :
      String → Json → Json → Json → Json → Result (Json × List (String × Json))
  unfolding answer_media data_members
  answer_details type sctp offer_media offer parameters =
      if is_media type
      then answer_media offer_media offer parameters
      else if type == "application"
      then (do members ← data_members sctp; ok (offer, members))
      else ok (offer, [])

  -- The constructor: the section, and the offer's RTP parameters as the options leave them.
  unfoldable pub new_answer :
      Json → Json → Json → Json → Json → Json → Json → Result (MediaSection × Json)
  unfolding const_element answer_details put_all setup_of
  new_answer ice candidates dtls sctp offer_media offer parameters = do
    base ← new_object ice candidates
    value ← const_element "type" offer_media
    type ← get_string value
    mid ← const_element "mid" offer_media
    protocol ← const_element "protocol" offer_media
    role_value ← const_element "role" dtls
    role ← get_string role_value
    (offer', details) ← answer_details type sctp offer_media offer parameters
    let first =
        put_all
          (("mid", mid)
            ∷ ("type", str type)
            ∷ ("protocol", protocol)
            ∷ ("connection", connection)
            ∷ ("port", int 7)
            ∷ [])
          base
    ok (
      record {
        side = answer;
        object = put_all details (with_member "setup" (setup_of role) first);
      },
      offer',
    )
