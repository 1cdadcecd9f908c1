-- ===== src/Sdp/MediaSection/Options.antt =====
-- The codec options of AnswerMediaSection's constructor: what they put into the parameters of the
-- offer's codec and of the answer's.
use libmediasouphandler.Base.{String, Bool, ◌||◌, Option, none, some, List, [], ◌∷◌, if◌then◌else◌}
use libmediasouphandler.Base.Text.{matches_nocase}
use libmediasouphandler.Base.Result.{Result, ok, err, json_error, undefined, ◌>>=◌}
use libmediasouphandler.Json.{
  Json, int, null, number_unsigned, arr, obj, Items, nil, cons, Fields, end, field, element,
  member_or_null, const_element, find, get_string, get_bool, get_uint32, json_eq, json_empty,
  assign_member,
}

-- `flag option offer answer` puts 1 or 0 into both codecs, `amount option answer` a number into
-- the answer's.
pub data CodecOption : Type 0 where
  flag : String → String → String → CodecOption
  amount : String → String → CodecOption

unfoldable pub opus_options : List CodecOption
opus_options =
    flag "opusStereo" "sprop-stereo" "stereo"
    ∷ flag "opusFec" "useinbandfec" "useinbandfec"
    ∷ flag "opusDtx" "usedtx" "usedtx"
    ∷ flag "opusCbr" "cbr" "cbr"
    ∷ amount "opusMaxPlaybackRate" "maxplaybackrate"
    ∷ amount "opusMaxAverageBitrate" "maxaveragebitrate"
    ∷ amount "opusPtime" "ptime"
    ∷ []

unfoldable pub video_options : List CodecOption
video_options =
    amount "videoGoogleStartBitrate" "x-google-start-bitrate"
    ∷ amount "videoGoogleMaxBitrate" "x-google-max-bitrate"
    ∷ amount "videoGoogleMinBitrate" "x-google-min-bitrate"
    ∷ []

-- The options that a codec has, by its MIME type in any case.
unfoldable pub options_of : String → List CodecOption
unfolding opus_options video_options matches_nocase
options_of mime =
    if matches_nocase mime "audio/opus"
    then opus_options
    else if matches_nocase mime "video/vp8"
        || matches_nocase mime "video/vp9"
        || matches_nocase mime "video/h264"
        || matches_nocase mime "video/h265"
    then video_options
    else []

abbrev pub bit : Bool → Json
bit b = if b then int 1 else int 0

-- codec["parameters"][key] = value.
unfoldable pub put_parameter : String → Json → Json → Result Json
unfolding element assign_member
put_parameter key value codec = do
  (codec', parameters) ← element "parameters" codec
  parameters' ← assign_member key (some value) parameters
  assign_member "parameters" (some parameters') codec'

abbrev pub set_flag : String → String → Json → Json → Option Json → Result (Json × Json)
unfolding put_parameter assign_member
set_flag offer answer codec parameters none = ok (codec, parameters)
set_flag offer answer codec parameters (some v) = do
  b ← get_bool v
  codec' ← put_parameter offer (bit b) codec
  parameters' ← assign_member answer (some (bit b)) parameters
  ok (codec', parameters')

abbrev pub set_amount : String → Json → Json → Option Json → Result (Json × Json)
unfolding assign_member
set_amount answer codec parameters none = ok (codec, parameters)
set_amount answer codec parameters (some v) = do
  n ← get_uint32 v
  parameters' ← assign_member answer (some (number_unsigned n)) parameters
  ok (codec, parameters')

-- One option, on the offer's codec and the answer's parameters.
unfoldable pub apply_option : Json → CodecOption → Json → Json → Result (Json × Json)
unfolding find
apply_option options (flag option offer answer) codec parameters =
    set_flag offer answer codec parameters (find option options)
apply_option options (amount option answer) codec parameters =
    set_amount answer codec parameters (find option options)

unfoldable pub apply_options : Json → List CodecOption → Json → Json → Result (Json × Json)
unfolding apply_option
apply_options options [] codec parameters = ok (codec, parameters)
apply_options options (o ∷ os) codec parameters = do
  (codec', parameters') ← apply_option options o codec parameters
  apply_options options os codec' parameters'

-- What the codec of the offer with a payload type becomes, and a value beside it. The test reads with
-- operator[], which puts a null where the payload type is missing.
module _ {A : Type 0} (payload : Json) (change : Json → Result (Json × A)) where
  unfoldable pub change_item : Items → Result (Items × A)
  unfolding element json_eq
  change_item nil = err undefined
  change_item (cons x xs) = do
    (x', type) ← element "payloadType" x
    let rest = (do (ys, a) ← change_item xs; ok (cons x' ys, a))
    if json_eq type payload then (do (y, a) ← change x'; ok (cons y xs, a)) else rest

  unfoldable pub change_field : Fields → Result (Fields × A)
  unfolding element json_eq
  change_field end = err undefined
  change_field (field k x fs) = do
    (x', type) ← element "payloadType" x
    let rest = (do (gs, a) ← change_field fs; ok (field k x' gs, a))
    if json_eq type payload then (do (y, a) ← change x'; ok (field k y fs, a)) else rest

  -- The search that the end iterator ends is read all the same.
  unfoldable pub change_codec : Json → Result (Json × A)
  unfolding change_item change_field
  change_codec null = err (json_error 214)
  change_codec (arr xs) = do (ys, a) ← change_item xs; ok (arr ys, a)
  change_codec (obj fs) = do (gs, a) ← change_field fs; ok (obj gs, a)
  change_codec _ = err (json_error 305)

-- What the options do to the codec found, by the MIME type of the answer's codec.
abbrev pub apply_to : Json → Json → Json → Json → Result (Json × Json)
unfolding options_of apply_options
apply_to options value parameters found = do
  mime ← get_string value
  apply_options options (options_of mime) found parameters

-- The options of one codec of the answer: the offer's RTP parameters and the codec's parameters.
unfoldable pub codec_options : Json → Json → Json → Json → Result (Json × Json)
unfolding element member_or_null const_element options_of apply_options change_codec assign_member
codec_options options offer codec parameters = do
  (offer', codecs) ← element "codecs" offer
  payload ← member_or_null "payloadType" codec
  value ← member_or_null "mimeType" codec
  (codecs', parameters') ← change_codec payload (apply_to options value parameters) codecs
  offer'' ← assign_member "codecs" (some codecs') offer'
  ok (offer'', parameters')

-- Options are looked at only if they are given and not empty.
unfoldable pub given_options : Option Json → Json → Json → Json → Result (Json × Json)
unfolding codec_options
given_options none offer codec parameters = ok (offer, parameters)
given_options (some options) offer codec parameters =
    if json_empty options
    then ok (offer, parameters)
    else codec_options options offer codec parameters
