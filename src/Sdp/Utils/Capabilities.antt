-- ===== src/Sdp/Utils/Capabilities.antt =====
-- extractRtpCapabilities of src/sdp/Utils.cpp: the RTP capabilities that a session description tells.
use Prim.Native.String.{◌++◌ as append}
use libmediasouphandler.Base.{
  ℕ, String, Bool, false, not, ◌&&◌, ◌||◌, Option, none, some, List, [], ◌∷◌, ◌++◌, ◌==◌,
  if◌then◌else◌, eqb, ltb,
}
use libmediasouphandler.Base.Int.{to_unsigned}
use libmediasouphandler.Base.Result.{Result, ok, ◌>>=◌}
use libmediasouphandler.Base.Split.{stoi}
use libmediasouphandler.Json.{
  Json, number_integer, str, obj, end, members, array, object, int, iterate, const_element, find,
  member_or_null, assign_member, get_string, get_uint8,
}
use libmediasouphandler.Ortc.Extended.{with_member}
use libmediasouphandler.Sdp.Utils.Parameters.{list_of}

-- std::map<uint8_t, json>, in the order of the keys.
abbrev pub Codecs : Type 0
Codecs = List (ℕ × Json)

unfoldable pub put_codec : ℕ → Json → Codecs → Codecs
put_codec k codec [] = (k, codec) ∷ []
put_codec k codec ((j, other) ∷ rest) =
    if eqb j k
    then (k, codec) ∷ rest
    else if ltb k j
    then (k, codec) ∷ (j, other) ∷ rest
    else (j, other) ∷ put_codec k codec rest

-- A codec of the map changed; a payload type that is not there changes nothing.
unfoldable pub change_codec_at : ℕ → (Json → Result Json) → Codecs → Result Codecs
change_codec_at k change [] = ok []
change_codec_at k change ((j, codec) ∷ rest) = do
  let later = change_codec_at k change rest
  if eqb j k
      then (do codec' ← change codec; ok ((j, codec') ∷ rest))
      else (do others ← later; ok ((j, codec) ∷ others))

abbrev channels_in : Option Json → Result Json
unfolding stoi
channels_in (some (str s)) = do n ← stoi s; ok (number_integer n)
channels_in _ = ok (int 1)

-- The channels of an audio codec are the encoding's number, or 1.
abbrev channels_member : String → Json → Result (Option Json)
unfolding find channels_in
channels_member kind rtp =
    if kind == "audio" then (do n ← channels_in (find "encoding" rtp); ok (some n)) else ok none

unfoldable pub native_codec : String → Json → Result (ℕ × Json)
unfolding const_element channels_member
native_codec kind rtp = do
  name ← const_element "codec" rtp
  codec ← get_string name
  payload ← const_element "payload" rtp
  rate ← const_element "rate" rtp
  channels ← channels_member kind rtp
  type ← get_uint8 payload
  ok (
    type,
    obj (
        with_member "channels" channels (
          members (
            ("kind", str kind)
            ∷ ("mimeType", str (append kind (append "/" codec)))
            ∷ ("preferredPayloadType", payload)
            ∷ ("clockRate", rate)
            ∷ ("parameters", obj end)
            ∷ ("rtcpFeedback", array [])
            ∷ []))),
  )

-- The loops over "rtp", "fmtp" and "rtcpFb".
unfoldable pub add_codecs : String → List Json → Codecs → Result Codecs
unfolding native_codec put_codec
add_codecs kind [] codecs = ok codecs
add_codecs kind (rtp ∷ rest) codecs = do
  (type, codec) ← native_codec kind rtp
  add_codecs kind rest (put_codec type codec codecs)

-- A profile-id that is a text becomes a number.
abbrev with_profile : Option Json → Json → Result Json
unfolding stoi assign_member
with_profile (some (str s)) parameters = do
  n ← stoi s
  assign_member "profile-id" (some (number_integer n)) parameters
with_profile _ parameters = ok parameters

module _ (parse_params : String → Result Json) where
  unfoldable pub add_parameters : List Json → Codecs → Result Codecs
  unfolding const_element find with_profile assign_member change_codec_at
  add_parameters [] codecs = ok codecs
  add_parameters (fmtp ∷ rest) codecs = do
    config ← const_element "config" fmtp
    text ← get_string config
    parameters ← parse_params text
    payload ← const_element "payload" fmtp
    type ← get_uint8 payload
    codecs' ←
        change_codec_at type
          (λ codec. with_profile (find "profile-id" parameters) parameters >>= λ read.
            assign_member "parameters" (some read) codec)
          codecs
    add_parameters rest codecs'

abbrev append_feedback : Json → Json → Result Json
unfolding member_or_null assign_member
append_feedback fb codec = do
  feedback ← member_or_null "rtcpFeedback" codec
  lines ← list_of feedback
  assign_member "rtcpFeedback" (some (array (lines ++ (fb ∷ [])))) codec

abbrev feedback_of : Json → Result Json
unfolding const_element find
feedback_of fb = do
  type ← const_element "type" fb
  ok (obj (with_member "parameter" (find "subtype" fb) (members (("type", type) ∷ []))))

unfoldable pub add_feedback : List Json → Codecs → Result Codecs
unfolding const_element stoi change_codec_at feedback_of append_feedback
add_feedback [] codecs = ok codecs
add_feedback (fb ∷ rest) codecs = do
  payload ← const_element "payload" fb
  text ← get_string payload
  n ← stoi text
  codecs' ←
      change_codec_at (to_unsigned 8 n)
        (λ codec. feedback_of fb >>= λ line. append_feedback line codec) codecs
  add_feedback rest codecs'

unfoldable pub native_extensions : String → List Json → Result (List Json)
unfolding const_element
native_extensions kind [] = ok []
native_extensions kind (ext ∷ rest) = do
  uri ← const_element "uri" ext
  value ← const_element "value" ext
  more ← native_extensions kind rest
  ok (object (("kind", str kind) ∷ ("uri", uri) ∷ ("preferredId", value) ∷ []) ∷ more)

abbrev pub codecs_list : Codecs → List Json
codecs_list [] = []
codecs_list ((k, codec) ∷ rest) = codec ∷ codecs_list rest

-- What the loop over the sections keeps.
pub record Gathered : Type 0 where
  pub got_audio : Bool
  pub got_video : Bool
  pub codecs : Codecs
  pub extensions : List Json

-- The first section of each kind counts.
abbrev is_wanted : String → Gathered → Bool
is_wanted kind g = kind == "audio" && not g.got_audio || kind == "video" && not g.got_video

module _ (parse_params : String → Result Json) where
  unfoldable pub gather_section : String → Json → Gathered → Result Gathered
  unfolding const_element iterate add_codecs add_parameters add_feedback native_extensions
  gather_section kind m g = do
    rtp ← const_element "rtp" m
    codecs ← add_codecs kind (iterate rtp) g.codecs
    fmtp ← const_element "fmtp" m
    codecs' ← add_parameters parse_params (iterate fmtp) codecs
    fb ← const_element "rtcpFb" m
    codecs'' ← add_feedback (iterate fb) codecs'
    ext ← const_element "ext" m
    extensions ← native_extensions kind (iterate ext)
    ok (record {
      got_audio = g.got_audio || kind == "audio";
      got_video = g.got_video || kind == "video";
      codecs = codecs'';
      extensions = g.extensions ++ extensions;
    })

  unfoldable pub gather : List Json → Gathered → Result Gathered
  unfolding const_element gather_section
  gather [] g = ok g
  gather (m ∷ rest) g = do
    type ← const_element "type" m
    kind ← get_string type
    g' ← (if is_wanted kind g then gather_section kind m g else ok g)
    gather rest g'

  unfoldable pub extract_rtp_capabilities : Json → Result Json
  unfolding const_element iterate gather
  extract_rtp_capabilities sdp = do
    media ← const_element "media" sdp
    g ←
        gather (iterate media)
          (record { got_audio = false; got_video = false; codecs = []; extensions = [] })
    ok (
        object (
          ("headerExtensions", array g.extensions)
          ∷ ("codecs", array (codecs_list g.codecs))
          ∷ ("fecMechanisms", array [])
          ∷ []))
