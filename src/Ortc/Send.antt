-- ===== src/Ortc/Send.antt =====
-- getSendingRtpParameters, getSendingRemoteRtpParameters and canSend of src/ortc.cpp.
pub mod First
pub mod Feedback
pub mod Can
use Prim.Native.String.{◌++◌ as append}
use libmediasouphandler.Base.{
  String, Bool, true, false, not, ◌&&◌, ◌||◌, Option, none, some, List, [], ◌∷◌, ◌==◌,
  if◌then◌else◌,
}
use libmediasouphandler.Base.Result.{Result, ok, ◌>>=◌}
use libmediasouphandler.Json.{
  Json, null, number_unsigned, str, obj, end, put, array, members, object, iterate, const_element,
  find, find_value, member_or_null, assign_member, get_string, get_uint8, is_null, find_if, filter,
  flat_map, traverse,
}
use libmediasouphandler.Ortc.Extended.{with_member}

-- kind == j["kind"].get<std::string>().
unfoldable pub has_kind : String → Json → Result Bool
has_kind kind j = do value ← const_element "kind" j; text ← get_string value; ok (kind == text)

-- The media codec to send; the key names the side whose parameters it takes.
unfoldable pub send_codec : String → Json → Result Json
unfolding put
send_codec parameters_key extended = do
  mime ← const_element "mimeType" extended
  payload_type ← const_element "localPayloadType" extended
  rate ← const_element "clockRate" extended
  parameters ← const_element parameters_key extended
  feedback ← const_element "rtcpFeedback" extended
  ok (
      obj (
        with_member "channels" (find "channels" extended) (
          members (
            ("mimeType", mime)
            ∷ ("payloadType", payload_type)
            ∷ ("clockRate", rate)
            ∷ ("parameters", parameters)
            ∷ ("rtcpFeedback", feedback)
            ∷ []))))

unfoldable pub send_rtx_codec : Json → Json → Result Json
send_rtx_codec extended rtx_type = do
  kind ← const_element "kind" extended
  kind_text ← get_string kind
  rate ← const_element "clockRate" extended
  payload_type ← const_element "localPayloadType" extended
  apt ← get_uint8 payload_type
  ok (
      object (
        ("mimeType", str (append kind_text "/rtx"))
        ∷ ("payloadType", rtx_type)
        ∷ ("clockRate", rate)
        ∷ ("parameters", object (("apt", number_unsigned apt) ∷ []))
        ∷ ("rtcpFeedback", array [])
        ∷ []))

abbrev send_with_rtx : Json → Json → Json → Result (List Json)
send_with_rtx extended codec rtx_type =
    if is_null rtx_type
    then ok (codec ∷ [])
    else (do rtx ← send_rtx_codec extended rtx_type; ok (codec ∷ rtx ∷ []))

-- The codecs for the extended codec that the loop stops at, if there is one.
unfoldable pub send_codecs : String → Option Json → Result (List Json)
send_codecs parameters_key none = ok []
send_codecs parameters_key (some extended) = do
  codec ← send_codec parameters_key extended
  rtx_type ← const_element "localRtxPayloadType" extended
  send_with_rtx extended codec rtx_type

abbrev send_extension : Json → Result Json
send_extension extended = do
  uri ← const_element "uri" extended
  id ← const_element "sendId" extended
  encrypt ← const_element "encrypt" extended
  ok (object (("uri", uri) ∷ ("id", id) ∷ ("encrypt", encrypt) ∷ ("parameters", obj end) ∷ []))

abbrev send_by_direction : Json → Result (List Json)
send_by_direction extended = do
  direction ← const_element "direction" extended
  text ← get_string direction
  if text == "sendrecv" || text == "sendonly"
      then (do ext ← send_extension extended; ok (ext ∷ []))
      else ok []

-- One round of the loop over the extended header extensions.
unfoldable pub send_extensions_of : String → Json → Result (List Json)
send_extensions_of kind extended = do
  mine ← has_kind kind extended
  if mine then send_by_direction extended else ok []

-- Codecs and header extensions to send; `mid`, `encodings` and `rtcp` are left empty.
unfoldable pub sending_parts : String → String → Json → Result (List Json × List Json)
sending_parts parameters_key kind extended = do
  extended_codecs ← const_element "codecs" extended
  first ← find_if (has_kind kind) (iterate extended_codecs)
  codecs ← send_codecs parameters_key first
  extended_exts ← const_element "headerExtensions" extended
  extensions ← flat_map (send_extensions_of kind) (iterate extended_exts)
  ok (codecs, extensions)

abbrev pub rtp_parameters : List Json → List Json → Json
rtp_parameters codecs extensions = object (
    ("mid", null)
    ∷ ("codecs", array codecs)
    ∷ ("headerExtensions", array extensions)
    ∷ ("encodings", array [])
    ∷ ("rtcp", obj end)
    ∷ [])

unfoldable pub get_sending_rtp_parameters : String → Json → Result Json
get_sending_rtp_parameters kind extended = do
  (codecs, extensions) ← sending_parts "localParameters" kind extended
  ok (rtp_parameters codecs extensions)

abbrev pub transport_cc_uri : String
transport_cc_uri = "http://www.ietf.org/id/draft-holmer-rmcat-transport-wide-cc-extensions-01"

abbrev pub abs_send_time_uri : String
abs_send_time_uri = "http://www.webrtc.org/experiments/rtp-hdrext/abs-send-time"

abbrev has_uri : String → Json → Result Bool
has_uri uri ext = do value ← member_or_null "uri" ext; text ← get_string value; ok (text == uri)

abbrev pub is_found {ℓ} : {A : Type ℓ} → Option A → Bool
is_found none = false
is_found (some x) = true

-- Whether feedback of a type stays: with Transport-CC all but goog-remb, with absolute send times
-- all but transport-cc, and with neither all but both.
abbrev pub keeps_feedback : Bool → Bool → String → Bool
keeps_feedback true abs_time type = not (type == "goog-remb")
keeps_feedback false true type = not (type == "transport-cc")
keeps_feedback false false type = not (type == "transport-cc" || type == "goog-remb")

abbrev pub feedback_test : (String → Bool) → Json → Result Bool
feedback_test keep fb = do value ← member_or_null "type" fb; type ← get_string value; ok (keep type)

-- The loop that erases a codec's feedback.
unfoldable pub reduce_codec_feedback : (String → Bool) → Json → Result Json
reduce_codec_feedback keep codec = do
  feedback ← find_value "rtcpFeedback" codec
  kept ← filter (feedback_test keep) (iterate feedback)
  assign_member "rtcpFeedback" (some (array kept)) codec

-- Which of the two congestion controls the header extensions offer; the second is looked for only
-- where the first is not found.
unfoldable pub congestion_control : List Json → Result (Bool × Bool)
congestion_control extensions = do
  transport_cc ← find_if (has_uri transport_cc_uri) extensions
  abs_send_time ←
      (if is_found transport_cc then ok none else find_if (has_uri abs_send_time_uri) extensions)
  ok (is_found transport_cc, is_found abs_send_time)

unfoldable pub get_sending_remote_rtp_parameters : String → Json → Result Json
get_sending_remote_rtp_parameters kind extended = do
  (codecs, extensions) ← sending_parts "remoteParameters" kind extended
  (transport_cc, abs_send_time) ← congestion_control extensions
  codecs' ← traverse (reduce_codec_feedback (keeps_feedback transport_cc abs_send_time)) codecs
  ok (rtp_parameters codecs' extensions)

unfoldable pub can_send : String → Json → Result Bool
can_send kind extended = do
  codecs ← const_element "codecs" extended
  found ← find_if (has_kind kind) (iterate codecs)
  ok (is_found found)
