-- ===== src/Ortc/Recv.antt =====
-- getRecvRtpCapabilities of src/ortc.cpp.
pub mod Codecs
pub mod Direction
use Prim.Native.String.{◌++◌ as append}
use libmediasouphandler.Base.{
  String, Bool, true, false, ◌||◌, Option, none, some, List, [], ◌∷◌, ◌==◌, if◌then◌else◌,
}
use libmediasouphandler.Base.Result.{Result, ok, ◌>>=◌}
use libmediasouphandler.Json.{
  Json, null, number_unsigned, str, obj, put, array, members, object, iterate, const_element, find,
  get_string, get_uint8, is_null, flat_map,
}
use libmediasouphandler.Ortc.Extended.{with_member}

-- The media codec that a remote side may send, as the extended codec has it.
unfoldable pub recv_codec : Json → Result Json
unfolding put
recv_codec extended = do
  mime ← const_element "mimeType" extended
  kind ← const_element "kind" extended
  payload_type ← const_element "remotePayloadType" extended
  rate ← const_element "clockRate" extended
  parameters ← const_element "localParameters" extended
  feedback ← const_element "rtcpFeedback" extended
  ok (
      obj (
        with_member "channels" (find "channels" extended) (
          members (
            ("mimeType", mime)
            ∷ ("kind", kind)
            ∷ ("preferredPayloadType", payload_type)
            ∷ ("clockRate", rate)
            ∷ ("parameters", parameters)
            ∷ ("rtcpFeedback", feedback)
            ∷ []))))

-- Its RTX codec, of the kind's own MIME type; apt is the media codec's payload type as a uint8_t.
unfoldable pub recv_rtx_codec : Json → Json → Result Json
recv_rtx_codec extended rtx_type = do
  kind ← const_element "kind" extended
  kind_text ← get_string kind
  rate ← const_element "clockRate" extended
  payload_type ← const_element "remotePayloadType" extended
  apt ← get_uint8 payload_type
  ok (
      object (
        ("mimeType", str (append kind_text "/rtx"))
        ∷ ("kind", kind)
        ∷ ("preferredPayloadType", rtx_type)
        ∷ ("clockRate", rate)
        ∷ ("parameters", object (("apt", number_unsigned apt) ∷ []))
        ∷ ("rtcpFeedback", array [])
        ∷ []))

abbrev recv_with_rtx : Json → Json → Json → Result (List Json)
recv_with_rtx extended codec rtx_type =
    if is_null rtx_type
    then ok (codec ∷ [])
    else (do rtx ← recv_rtx_codec extended rtx_type; ok (codec ∷ rtx ∷ []))

-- One round of the loop over the extended codecs.
unfoldable pub recv_codecs_of : Json → Result (List Json)
recv_codecs_of extended = do
  codec ← recv_codec extended
  rtx_type ← const_element "remoteRtxPayloadType" extended
  recv_with_rtx extended codec rtx_type

abbrev recv_extension : Json → Json → Result Json
recv_extension extended direction = do
  kind ← const_element "kind" extended
  uri ← const_element "uri" extended
  id ← const_element "recvId" extended
  encrypt ← const_element "encrypt" extended
  ok (
      object (
        ("kind", kind)
        ∷ ("uri", uri)
        ∷ ("preferredId", id)
        ∷ ("preferredEncrypt", encrypt)
        ∷ ("direction", direction)
        ∷ []))

-- One round of the loop over the extended header extensions.
unfoldable pub recv_extensions_of : Json → Result (List Json)
recv_extensions_of extended = do
  direction ← const_element "direction" extended
  text ← get_string direction
  if text == "sendrecv" || text == "recvonly"
      then (do ext ← recv_extension extended direction; ok (ext ∷ []))
      else ok []

unfoldable pub get_recv_rtp_capabilities : Json → Result Json
get_recv_rtp_capabilities extended = do
  extended_codecs ← const_element "codecs" extended
  codecs ← flat_map recv_codecs_of (iterate extended_codecs)
  extended_exts ← const_element "headerExtensions" extended
  extensions ← flat_map recv_extensions_of (iterate extended_exts)
  ok (object (("codecs", array codecs) ∷ ("headerExtensions", array extensions) ∷ []))
