-- ===== src/Sdp/MediaSection/Codecs.antt =====
-- The lines of a section's codecs, which the answer and the offer build alike.
use Prim.Native.String.{◌++◌ as append}
use libmediasouphandler.Base.{
  ℕ, zero, suc, ℤ, String, Bool, true, false, ◌||◌, Option, none, some, List, [], ◌∷◌, ◌++◌, ◌==◌,
  if◌then◌else◌, ltb, ◌≡◌, refl,
}
use libmediasouphandler.Base.Text.{codes, lower, is_empty, join, to_string, to_string_ℤ}
use libmediasouphandler.Base.Result.{Result, ok, ◌>>=◌}
use libmediasouphandler.Json.{
  Json, number_integer, number_unsigned, number_float, str, obj, array, members, object, iterate,
  int, const_element, find, get_string, get_uint8, get_int64, items, traverse, put,
}
use libmediasouphandler.Ortc.Mime.{strip}
use libmediasouphandler.Ortc.Extended.{with_member}

abbrev begins_media : Option (List ℕ) → Option (List ℕ) → Bool
begins_media none none = false
begins_media _ _ = true

abbrev drop_text : ℕ → String → String
drop_text zero s = s
drop_text (suc n) String.[] = ""
drop_text (suc n) (String.◌∷◌ c s) = drop_text n s

-- getCodecName: the MIME type without "audio/" or "video/" at its beginning, in any case.
unfoldable pub codec_name : String → String
codec_name mime =
    let text = lower (codes mime) in
    if begins_media (strip (codes "audio/") text) (strip (codes "video/") text)
    then drop_text 6 mime
    else mime

abbrev name_of : Json → Result String
name_of codec = do
  value ← const_element "mimeType" codec
  mime ← get_string value
  ok (codec_name mime)

-- More than one channel is said in the encoding.
abbrev channels_of : Option Json → Result (Option Json)
channels_of none = ok none
channels_of (some v) = do n ← get_uint8 v; ok (if ltb 1 n then some (number_unsigned n) else none)

abbrev payload_object : Json → List (String × Json) → Json
payload_object payload more = object (("payload", payload) ∷ more)

-- The members are read by operator[], constant or not: `at`.
module _ (at : String → Json → Result Json) where
  unfoldable pub rtp_line : Json → Result Json
  unfolding codec_name put
  rtp_line codec = do
    payload ← at "payloadType" codec
    name ← name_of codec
    rate ← at "clockRate" codec
    channels ← channels_of (find "channels" codec)
    ok (
        obj (
          with_member "encoding" channels
            (members (("payload", payload) ∷ ("codec", str name) ∷ ("rate", rate) ∷ []))))

  abbrev feedback_line : Json → Json → Result Json
  feedback_line codec fb = do
    payload ← at "payloadType" codec
    type ← at "type" fb
    subtype ← at "parameter" fb
    ok (payload_object payload (("type", type) ∷ ("subtype", subtype) ∷ []))

  unfoldable pub feedback_lines : Json → Result (List Json)
  feedback_lines codec = do
    feedback ← at "rtcpFeedback" codec
    traverse (feedback_line codec) (iterate feedback)

  abbrev payload_text : Json → Result String
  payload_text codec = do value ← at "payloadType" codec; n ← get_uint8 value; ok (to_string n)

  abbrev payload_texts : List Json → Result (List String)
  payload_texts [] = ok []
  payload_texts (codec ∷ rest) = do
    text ← payload_text codec
    more ← payload_texts rest
    ok (text ∷ more)

  -- The payload types of the codecs, with spaces between them.
  unfoldable pub payloads_of : List Json → Result String
  unfolding join to_string
  payloads_of codecs = do texts ← payload_texts codecs; ok (join " " texts)

  abbrev pub extension_line : Json → Result Json
  extension_line ext = do
    uri ← at "uri" ext
    id ← at "id" ext
    ok (object (("uri", uri) ∷ ("value", id) ∷ []))

-- What a codec adds to the section.
pub record CodecLines : Type 0 where
  pub rtp : Json
  pub fmtp : List Json
  pub feedback : List Json

-- The members of a section of audio or video that its codecs fill.
abbrev rtps : List CodecLines → List Json
rtps [] = []
rtps (c ∷ cs) = c.rtp ∷ rtps cs

abbrev feedbacks : List CodecLines → List Json
feedbacks [] = []
feedbacks (c ∷ cs) = c.feedback ++ feedbacks cs

abbrev fmtps : List CodecLines → List Json
fmtps [] = []
fmtps (c ∷ cs) = c.fmtp ++ fmtps cs

abbrev pub codec_members : List CodecLines → List (String × Json)
codec_members cs =
    ("rtp", array (rtps cs)) ∷ ("rtcpFb", array (feedbacks cs)) ∷ ("fmtp", array (fmtps cs)) ∷ []

-- How `std::ostream << float` writes a number.
abbrev pub ShowFloat : Type 0
ShowFloat = ℤ → ℕ → String

module _ (show_float : ShowFloat) where
  abbrev value_text : Json → Result String
  value_text (str s) = ok s
  value_text (number_float a k) = ok (show_float a k)
  value_text (number_integer z) = do n ← get_int64 (number_integer z); ok (to_string_ℤ n)
  value_text (number_unsigned n) = do m ← get_int64 (number_unsigned n); ok (to_string_ℤ m)
  value_text _ = ok ""

  abbrev key_value : List (String × Json) → Result (List String)
  key_value [] = ok []
  key_value ((key, value) ∷ rest) = do
    text ← value_text value
    more ← key_value rest
    ok (append key (append "=" text) ∷ more)

  -- The codec's parameters as key=value, with semicolons between them.
  unfoldable pub config_of : Json → Result String
  unfolding items join to_string_ℤ
  config_of parameters = do pairs ← key_value (items parameters); ok (join ";" pairs)

  -- The fmtp line of a payload type, if there is anything to say.
  unfoldable pub fmtp_lines : Json → Json → Result (List Json)
  unfolding config_of
  fmtp_lines payload parameters = do
    config ← config_of parameters
    ok (if is_empty config then [] else payload_object payload (("config", str config) ∷ []) ∷ [])

-- What both classes say of the connection before the kind comes in.
abbrev pub connection : Json
connection = object (("ip", str "127.0.0.1") ∷ ("version", int 4) ∷ [])

unfoldable pub data_members : Json → Result (List (String × Json))
data_members sctp = do
  port ← const_element "port" sctp
  size ← const_element "maxMessageSize" sctp
  ok (("payloads", str "webrtc-datachannel") ∷ ("sctpPort", port) ∷ ("maxMessageSize", size) ∷ [])

abbrev pub is_media : String → Bool
is_media kind = kind == "audio" || kind == "video"

codec_name_runs :
    (codec_name "Audio/opus" ≡ "opus") × (codec_name "video/VP8" ≡ "VP8") × (codec_name "x" ≡ "x")
unfolding codec_name
codec_name_runs = (refl, refl, refl)
