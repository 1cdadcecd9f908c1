-- ===== src/Sdp/Utils/Parameters.antt =====
-- applyCodecParameters of src/sdp/Utils.cpp: what the offer's Opus parameters change in the answer.
use Prim.Native.String.{◌++◌ as append}
use libmediasouphandler.Base.{
  String, Bool, true, false, Option, none, some, List, [], ◌∷◌, if◌then◌else◌,
}
use libmediasouphandler.Base.Text.{matches_nocase, join, to_string_ℤ}
use libmediasouphandler.Base.Result.{Result, ok, err, json_error, ◌>>=◌}
use libmediasouphandler.Json.{
  Json, null, boolean, number_integer, number_unsigned, number_float, str, arr, array, object,
  to_list, int, iterate, items, const_element, element, member_or_null, find, assign_member,
  get_string, get_int32, json_eq, find_if,
}
use libmediasouphandler.Sdp.MediaSection.Codecs.{ShowFloat}

abbrev pub list_of : Json → Result (List Json)
list_of null = ok []
list_of (arr xs) = ok (to_list xs)
list_of _ = err (json_error 305)

-- line["payload"] == codec["payloadType"].
unfoldable pub is_codec_line : Json → Json → Result Bool
unfolding const_element json_eq
is_codec_line codec line = do
  payload ← const_element "payload" line
  type ← const_element "payloadType" codec
  ok (json_eq payload type)

-- The first line of the codec changed, or a new one, with nothing in it before, behind the last.
unfoldable pub change_line : (Json → Result Json) → Json → List Json → Result (List Json)
unfolding is_codec_line const_element
change_line change codec [] = do
  type ← const_element "payloadType" codec
  line ← change (object (("payload", type) ∷ ("config", str "") ∷ []))
  ok (line ∷ [])
change_line change codec (line ∷ lines) = do
  same ← is_codec_line codec line
  let later = change_line change codec lines
  if same then (do line' ← change line; ok (line' ∷ lines)) else (do rest ← later; ok (line ∷ rest))

abbrev stereo_of : Option Json → Option Json
stereo_of (some (boolean true)) = some (int 1)
stereo_of (some (boolean false)) = some (int 0)
stereo_of _ = none

-- parameters["stereo"], where the codec's sprop-stereo is a Boolean.
unfoldable pub with_stereo : Json → Json → Result Json
unfolding const_element find assign_member
with_stereo codec parameters = do
  given ← const_element "parameters" codec
  elim (stereo_of (find "sprop-stereo" given)) [
    | none ↦ ok parameters
    | some v ↦ assign_member "stereo" (some v) parameters
  ]

module _ (show_float : ShowFloat) where
  abbrev value_text : Json → Result String
  unfolding to_string_ℤ
  value_text (str s) = ok s
  value_text (number_float a k) = ok (show_float a k)
  value_text (number_integer z) = do n ← get_int32 (number_integer z); ok (to_string_ℤ n)
  value_text (number_unsigned n) = do m ← get_int32 (number_unsigned n); ok (to_string_ℤ m)
  value_text _ = ok ""

  abbrev pairs_of : List (String × Json) → Result (List String)
  unfolding value_text
  pairs_of [] = ok []
  pairs_of ((key, value) ∷ rest) = do
    text ← value_text value
    more ← pairs_of rest
    ok (append key (append "=" text) ∷ more)

  -- The parameters as key=value, with semicolons between them.
  unfoldable pub config_text : Json → Result String
  unfolding pairs_of items join
  config_text parameters = do pairs ← pairs_of (items parameters); ok (join ";" pairs)

  module _ (parse_params : String → Result Json) where
    unfoldable pub apply_to_line : Json → Json → Result Json
    unfolding member_or_null assign_member with_stereo config_text
    apply_to_line codec line = do
      value ← member_or_null "config" line
      config ← get_string value
      parameters ← parse_params config
      parameters' ← with_stereo codec parameters
      text ← config_text parameters'
      assign_member "config" (some (str text)) line

    abbrev apply_to_lines : Json → Json → Result Json
    unfolding member_or_null assign_member change_line apply_to_line
    apply_to_lines codec media = do
      fmtp ← member_or_null "fmtp" media
      lines ← list_of fmtp
      lines' ← change_line (apply_to_line codec) codec lines
      assign_member "fmtp" (some (array lines')) media

    abbrev apply_opus : Json → Json → Result Json
    unfolding element find_if is_codec_line iterate apply_to_lines
    apply_opus codec media = do
      (media', rtps) ← element "rtp" media
      found ← find_if (is_codec_line codec) (iterate rtps)
      elim found [ none ↦ ok media' | some rtp ↦ apply_to_lines codec media' ]

    -- A codec that is not Opus, or that the section does not have, changes nothing but that a missing
    -- "rtp" becomes null.
    unfoldable pub apply_codec : Json → Json → Result Json
    unfolding matches_nocase const_element apply_opus
    apply_codec codec media = do
      value ← const_element "mimeType" codec
      mime ← get_string value
      if matches_nocase mime "audio/opus" then apply_opus codec media else ok media

    abbrev pub apply_codecs : List Json → Json → Result Json
    unfolding apply_codec
    apply_codecs [] media = ok media
    apply_codecs (codec ∷ codecs) media = do
      media' ← apply_codec codec media
      apply_codecs codecs media'

    unfoldable pub apply_codec_parameters : Json → Json → Result Json
    unfolding const_element iterate
    apply_codec_parameters offer media = do
      codecs ← const_element "codecs" offer
      apply_codecs (iterate codecs) media
