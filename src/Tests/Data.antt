-- ===== src/Tests/Data.antt =====
-- Small RTP capabilities and parameters, and codecs.
use libmediasouphandler.Base.{ℕ, String, false, some, List, [], ◌∷◌, ◌==◌, ◌≡◌, ◌≢◌, eq_iff}
use libmediasouphandler.Base.Result.{Result, ok, err}
use libmediasouphandler.Json.{
  Json, null, number_unsigned, str, obj, Fields, end, array, object, members,
}
use libmediasouphandler.Ortc.Match.{H264}

-- What a call returned, null if it threw.
abbrev pub value_of : Result Json → Json
value_of (ok v) = v
value_of (err e) = null

abbrev pub fields_of : Result Json → Fields
fields_of (ok (obj fs)) = fs
fields_of _ = end

abbrev pub parts_of : Result (List Json × List Json) → List Json × List Json
parts_of (ok p) = p
parts_of (err e) = ([], [])

pub texts_differ : (s t : String) → (s == t) ≡ false → s ≢ t
texts_differ s t h e = let same = (eq_iff s t).1 e in cc

abbrev pub opus_fields : Fields
opus_fields = members (
    ("mimeType", str "audio/opus")
    ∷ ("preferredPayloadType", number_unsigned 111)
    ∷ ("clockRate", number_unsigned 48000)
    ∷ ("channels", number_unsigned 2)
    ∷ [])

abbrev pub caps : Json
caps = object (("codecs", array (obj opus_fields ∷ [])) ∷ [])

abbrev pub parameters : Json
parameters = object (
    (
      "codecs",
      array (
          object (
            ("mimeType", str "audio/opus")
            ∷ ("payloadType", number_unsigned 111)
            ∷ ("clockRate", number_unsigned 48000)
            ∷ [])
          ∷ []),
    )
    ∷ [])

-- The stream parameters of a channel with a lifetime.
abbrev pub stream : Fields
stream = members (("streamId", number_unsigned 3) ∷ ("maxPacketLifeTime", number_unsigned 500) ∷ [])

-- Extended capabilities with an audio codec, and its RTX codec, and a header extension.
abbrev pub extended_opus : Json
extended_opus = object (
    ("mimeType", str "audio/opus")
    ∷ ("kind", str "audio")
    ∷ ("clockRate", number_unsigned 48000)
    ∷ ("localPayloadType", number_unsigned 111)
    ∷ ("localRtxPayloadType", number_unsigned 112)
    ∷ ("remotePayloadType", number_unsigned 100)
    ∷ ("remoteRtxPayloadType", number_unsigned 101)
    ∷ ("localParameters", obj end)
    ∷ ("remoteParameters", obj end)
    ∷ (
      "rtcpFeedback",
      array (
          object (("type", str "transport-cc") ∷ ("parameter", str "") ∷ [])
          ∷ object (("type", str "nack") ∷ ("parameter", str "") ∷ [])
          ∷ []),
    )
    ∷ [])

abbrev pub extended_mid : Json
extended_mid = object (
    ("kind", str "audio")
    ∷ ("uri", str "urn:ietf:params:rtp-hdrext:sdes:mid")
    ∷ ("sendId", number_unsigned 1)
    ∷ ("recvId", number_unsigned 2)
    ∷ ("encrypt", null)
    ∷ ("direction", str "sendrecv")
    ∷ [])

abbrev pub extended : Json
extended =
    object (
      ("codecs", array (extended_opus ∷ [])) ∷ ("headerExtensions", array (extended_mid ∷ [])) ∷ [])

-- A header extension, and one whose direction is no direction.
abbrev pub extension : String → Json
extension direction = object (
    ("kind", str "audio")
    ∷ ("uri", str "urn:ietf:params:rtp-hdrext:sdes:mid")
    ∷ ("preferredId", number_unsigned 1)
    ∷ ("preferredEncrypt", null)
    ∷ ("direction", str direction)
    ∷ [])

-- Stand-ins for WebRTC's two functions: profiles agree that are the same text, and the answer has
-- the first one.
abbrev pub h264 : H264
h264 = record {
  is_same_profile = λ a b. a.profile_level_id == b.profile_level_id;
  generate_for_answer = λ a b. some (some a.profile_level_id);
}

abbrev pub codec : String → ℕ → Json
codec mime rate = object (("mimeType", str mime) ∷ ("clockRate", number_unsigned rate) ∷ [])
