-- ===== src/Ortc/Receive.antt =====
-- canReceive and generateProbatorRtpParameters of src/ortc.cpp.
use libmediasouphandler.Base.{Bool, false, ◌||◌, List, [], ◌∷◌}
use libmediasouphandler.Base.Result.{Result, ok, ◌>>=◌}
use libmediasouphandler.Json.{
  Json, null, number_unsigned, str, array, object, iterate, const_element, member_or_null, json_eq,
  find_if, filter,
}
use libmediasouphandler.Ortc.Validate.Params.{validate_rtp_parameters}
use libmediasouphandler.Ortc.Send.{transport_cc_uri, abs_send_time_uri, is_found}

abbrev remote_type_is : Json → Json → Result Bool
remote_type_is payload_type codec = do
  remote_type ← const_element "remotePayloadType" codec
  ok (json_eq remote_type payload_type)

-- Whether one of the extended codecs has the first codec's payload type.
unfoldable pub first_is_known : List Json → Json → Result Bool
first_is_known [] extended = ok false
first_is_known (first ∷ rest) extended = do
  payload_type ← member_or_null "payloadType" first
  codecs ← const_element "codecs" extended
  found ← find_if (remote_type_is payload_type) (iterate codecs)
  ok (is_found found)

-- The verdict, and the parameters with their defaults filled in.
unfoldable pub can_receive : Json → Json → Result (Bool × Json)
can_receive parameters extended = do
  valid ← validate_rtp_parameters parameters
  codecs ← const_element "codecs" valid
  known ← first_is_known (iterate codecs) extended
  ok (known, valid)

abbrev pub probator_ssrc : Json
probator_ssrc = number_unsigned 1234

abbrev pub probator_mid : Json
probator_mid = str "probator"

-- codecs[0], which on an empty array is null.
abbrev first_or_null : List Json → Json
first_or_null [] = null
first_or_null (x ∷ xs) = x

abbrev uri_of_probation : Json → Result Bool
uri_of_probation ext = do
  uri ← member_or_null "uri" ext
  ok (json_eq uri (str abs_send_time_uri) || json_eq uri (str transport_cc_uri))

unfoldable pub generate_probator_rtp_parameters : Json → Result Json
generate_probator_rtp_parameters video_parameters = do
  valid ← validate_rtp_parameters video_parameters
  codecs ← const_element "codecs" valid
  exts ← const_element "headerExtensions" valid
  kept ← filter uri_of_probation (iterate exts)
  ok (
      object (
        ("mid", probator_mid)
        ∷ ("codecs", array (first_or_null (iterate codecs) ∷ []))
        ∷ ("headerExtensions", array kept)
        ∷ ("encodings", array (object (("ssrc", probator_ssrc) ∷ []) ∷ []))
        ∷ ("rtcp", object (("cname", str "probator") ∷ []))
        ∷ []))
