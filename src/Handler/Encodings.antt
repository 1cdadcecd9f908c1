-- ===== src/Handler/Encodings.antt =====
-- What SendHandler::Send of src/Handler.cpp makes of the encodings and of the RTP parameters.
use Prim.Native.String.{◌++◌ as append}
use libmediasouphandler.Base.{
  ℕ, suc, ◌%◌, ◌^◌, ℤ, String, Bool, ◌&&◌, ◌||◌, Option, none, some, List, [], ◌∷◌, if◌then◌else◌,
  ltb,
}
use libmediasouphandler.Base.Text.{is_empty, matches_nocase, to_string}
use libmediasouphandler.Base.Result.{Result, ok, err, json_error, undefined, ◌>>=◌}
use libmediasouphandler.Json.{
  Json, null, boolean, number_integer, number_float, str, arr, obj, Fields, end, put, array,
  to_list, length, int, member_or_null, assign_member, get_string, const_element, get_int32,
  traverse,
}
use libmediasouphandler.Ortc.Match.{H264}
use libmediasouphandler.Ortc.Reduce.{reduce_codecs}
use libmediasouphandler.Ortc.Extended.{with_member}
use libmediasouphandler.ScalabilityMode.{parse_scalability_mode}
use libmediasouphandler.Sdp.RemoteSdp.Store.{element_at, put_at}
use libmediasouphandler.Sdp.Utils.{get_cname}
use libmediasouphandler.Sdp.Utils.Encodings.{get_rtp_encodings}
use libmediasouphandler.Handler.Connection.{RtpEncoding}

abbrev text_member : Option String → Option Json
text_member none = none
text_member (some s) = some (str s)

abbrev int_member : Option ℤ → Option Json
int_member none = none
int_member (some z) = some (number_integer z)

abbrev double_member : Option (ℤ × ℕ) → Option Json
double_member none = none
double_member (some (a, k)) = some (number_float a k)

module _ {Y : Type 0} where
  abbrev name_from : ℕ → List (RtpEncoding Y) → List (RtpEncoding Y)
  unfolding to_string
  name_from idx [] = []
  name_from idx (e ∷ es) =
      record e { others = record e.others { rid = append "r" (to_string (idx % 2 ^ 8)) } }
      ∷ name_from (suc idx) es

  -- Several encodings get the names r0, r1, ...; the counter is a uint8_t.
  unfoldable pub name_encodings : List (RtpEncoding Y) → List (RtpEncoding Y)
  unfolding name_from
  name_encodings es = if ltb 1 (length es) then name_from 0 es else es

  -- fillJsonRtpEncodingParameters, on the members of an object.
  unfoldable pub fill_encoding : RtpEncoding Y → Fields → Fields
  unfolding put
  fill_encoding e fs = put "networkPriority" (int e.network_priority) (
      with_member "scalabilityMode" (text_member e.scalability_mode) (
        with_member "scaleResolutionDownBy" (double_member e.scale_resolution_down_by) (
          with_member "maxFramerate" (double_member e.max_framerate) (
            with_member "maxBitrate" (int_member e.max_bitrate_bps) (
              with_member "rid" (if is_empty e.others.rid then none else some (str e.others.rid))
                (put "active" (boolean e.active) fs))))))

  abbrev filled : RtpEncoding Y → Json
  unfolding fill_encoding
  filled e = obj (fill_encoding e end)

  abbrev all_filled : List (RtpEncoding Y) → List Json
  unfolding filled
  all_filled [] = []
  all_filled (e ∷ es) = filled e ∷ all_filled es

  abbrev fill_front : Bool → RtpEncoding Y → List Json → Result (List Json)
  unfolding fill_encoding
  fill_front svc e (obj fs ∷ rest) = ok (obj (fill_encoding e fs) ∷ (if svc then [] else rest))
  fill_front svc e _ = err undefined

  -- The encodings of the parameters: those of the offer's lines, the first completed with the one
  -- encoding given, or several as they were given. With the hack for VP9 SVC only the first is kept.
  unfoldable pub settle_encodings : Bool → List (RtpEncoding Y) → Json → Result (List Json)
  unfolding get_rtp_encodings all_filled fill_front
  settle_encodings svc [] media = get_rtp_encodings media
  settle_encodings svc (e ∷ []) media = do
    encodings ← get_rtp_encodings media
    fill_front svc e encodings
  settle_encodings svc es media = ok (all_filled es)

  abbrev mode_of : List (RtpEncoding Y) → String
  mode_of [] = ""
  mode_of (e ∷ es) = elim e.scalability_mode [ none ↦ "" | some mode ↦ mode ]

  -- How many spatial layers the first encoding's mode names.
  unfoldable pub spatial_layers : List (RtpEncoding Y) → Result ℤ
  unfolding parse_scalability_mode const_element
  spatial_layers es = do
    layers ← const_element "spatialLayers" (parse_scalability_mode (mode_of es))
    get_int32 layers

-- An array, or null for none, as a list.
abbrev pub list_of : Json → Result (List Json)
list_of null = ok []
list_of (arr xs) = ok (to_list xs)
list_of _ = err (json_error 305)

-- parameters["codecs"] = ortc::reduceCodecs(parameters["codecs"], codec);
unfoldable pub with_codecs : H264 → Option Json → Json → Result Json
unfolding reduce_codecs member_or_null assign_member
with_codecs h264 codec parameters = do
  codecs ← member_or_null "codecs" parameters
  given ← list_of codecs
  reduced ← reduce_codecs h264 given codec
  assign_member "codecs" (some (array reduced)) parameters

abbrev first_or_null : List Json → Json
first_or_null [] = null
first_or_null (x ∷ xs) = x

-- The MIME type of the first codec.
unfoldable pub first_mime : Json → Result String
unfolding member_or_null
first_mime parameters = do
  codecs ← member_or_null "codecs" parameters
  given ← list_of codecs
  mime ← member_or_null "mimeType" (first_or_null given)
  get_string mime

abbrev element_or_null : Option Json → Json
element_or_null none = null
element_or_null (some v) = v

-- sdp["media"][idx]: null for a section that is not there.
unfoldable pub media_at : ℕ → Json → Result Json
unfolding member_or_null element_at
media_at idx sdp = do
  media ← member_or_null "media" sdp
  sections ← list_of media
  ok (element_or_null (element_at idx sections))

-- sdp["media"][idx] = section;
unfoldable pub put_media_at : ℕ → Json → Json → Result Json
unfolding member_or_null assign_member put_at
put_media_at idx section sdp = do
  media ← member_or_null "media" sdp
  sections ← list_of media
  assign_member "media" (some (array (put_at idx section sections))) sdp

-- parameters["rtcp"]["cname"] = cname;
unfoldable pub with_cname : String → Json → Result Json
unfolding member_or_null assign_member
with_cname cname parameters = do
  rtcp ← member_or_null "rtcp" parameters
  rtcp' ← assign_member "cname" (some (str cname)) rtcp
  assign_member "rtcp" (some rtcp') parameters

-- VP8 and H.264 with several encodings have the mode S1T3 in each.
unfoldable pub with_modes : String → List Json → Result (List Json)
unfolding matches_nocase traverse assign_member
with_modes mime encodings =
    if ltb 1 (length encodings)
      && (matches_nocase mime "video/vp8" || matches_nocase mime "video/h264")
    then traverse (assign_member "scalabilityMode" (some (str "S1T3"))) encodings
    else ok encodings

-- The sending parameters' CNAME and encodings, from the section of the local description.
unfoldable pub complete_parameters :
    {Y : Type 0} → Bool → List (RtpEncoding Y) → Json → Json → Result Json
unfolding get_cname with_cname settle_encodings first_mime with_modes assign_member
complete_parameters svc es media parameters = do
  cname ← get_cname media
  named ← with_cname cname parameters
  encodings ← settle_encodings svc es media
  mime ← first_mime named
  encodings' ← with_modes mime encodings
  assign_member "encodings" (some (array encodings')) named
