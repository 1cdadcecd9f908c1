-- ===== src/Ortc/Match.antt =====
-- isRtxCodec, matchCodecs, matchHeaderExtensions, reduceRtcpFeedback and the readers of codec
-- parameters of src/ortc.cpp.
pub mod Keeps
use libmediasouphandler.Base.{
  ℕ, String, Bool, true, false, not, ◌&&◌, Option, none, some, List, [], ◌∷◌, ◌==◌, eqb,
  if◌then◌else◌,
}
use libmediasouphandler.Base.Text.{codes, lower, same_codes, matches_nocase, to_string, to_string_ℤ}
use libmediasouphandler.Base.Result.{Result, ok, ◌>>=◌}
use libmediasouphandler.Json.{
  Json, str, is_number, is_number_integer, iterate, element, const_element, find, find_value,
  get_string, get_uint8, get_int32, assign_member, json_eq, find_if, flat_map,
}
use libmediasouphandler.Ortc.Mime.{is_rtx_mime}

-- The three entries of the cricket::CodecParameterMap that matchCodecs fills.
pub record H264Params : Type 0 where
  pub level_asymmetry_allowed : String
  pub packetization_mode : String
  pub profile_level_id : String

-- The two functions of WebRTC that matchCodecs calls: H264IsSameProfile, and
-- H264GenerateProfileLevelIdForAnswer, which may throw (`none`) and may leave the profile-level-id of
-- its result unset (`some none`).
pub record H264 : Type 0 where
  pub is_same_profile : H264Params → H264Params → Bool
  pub generate_for_answer : H264Params → H264Params → Option (Option String)

unfoldable pub is_rtx_codec : Json → Result Bool
is_rtx_codec codec = do
  mime ← const_element "mimeType" codec
  text ← get_string mime
  ok (is_rtx_mime text)

abbrev uint8_or_zero : Option Json → Result ℕ
uint8_or_zero none = ok 0
uint8_or_zero (some v) = if is_number_integer v then get_uint8 v else ok 0

-- A parameter of the codec read as a uint8_t, zero if it is absent or no integer.
unfoldable pub uint8_parameter : String → Json → Result ℕ
uint8_parameter key codec = do
  parameters ← const_element "parameters" codec
  uint8_or_zero (find key parameters)

abbrev number_text : Json → Result String
number_text v = do z ← get_int32 v; ok (to_string_ℤ z)

abbrev text_or : String → Option Json → Result String
text_or d none = ok d
text_or d (some v) = if is_number v then number_text v else get_string v

-- A parameter of the codec read as a text, a number by its digits.
unfoldable pub text_parameter : String → String → Json → Result String
text_parameter key d codec = do
  parameters ← const_element "parameters" codec
  text_or d (find key parameters)

unfoldable pub h264_params : Json → ℕ → Result H264Params
h264_params codec mode = do
  allowed ← uint8_parameter "level-asymmetry-allowed" codec
  id ← text_parameter "profile-level-id" "" codec
  ok (record {
    level_asymmetry_allowed = to_string allowed;
    packetization_mode = to_string mode;
    profile_level_id = id;
  })

abbrev as_text : Option String → Option Json
as_text none = none
as_text (some s) = some (str s)

-- codec["parameters"]["profile-level-id"] given a value, or erased.
unfoldable pub set_profile : Option String → Json → Result Json
set_profile id codec = do
  (codec', parameters) ← element "parameters" codec
  parameters' ← assign_member "profile-level-id" (as_text id) parameters
  assign_member "parameters" (some parameters') codec'

-- A verdict, with both codecs as the call leaves them.
abbrev pub Verdict : Type 0
Verdict = Result (Bool × Json × Json)

abbrev agree : Bool → Option String → Json → Json → Verdict
agree false id a b = ok (true, a, b)
agree true id a b = do a' ← set_profile id a; b' ← set_profile id b; ok (true, a', b')

module _ (h264 : H264) where
  abbrev answer : Bool → Option (Option String) → Json → Json → Verdict
  answer modify none a b = ok (false, a, b)
  answer modify (some id) a b = agree modify id a b

  unfoldable pub match_h264 : Bool → Json → Json → Verdict
  match_h264 modify a b = do
    a_mode ← uint8_parameter "packetization-mode" a
    b_mode ← uint8_parameter "packetization-mode" b
    if not (eqb a_mode b_mode) then ok (false, a, b) else do
      pa ← h264_params a a_mode
      pb ← h264_params b b_mode
      if not (h264.is_same_profile pa pb)
          then ok (false, a, b)
          else answer modify (h264.generate_for_answer pa pb) a b

  unfoldable pub match_vp9 : Json → Json → Verdict
  match_vp9 a b = do
    a_profile ← text_parameter "profile-id" "0" a
    b_profile ← text_parameter "profile-id" "0" b
    ok (a_profile == b_profile, a, b)

  -- The part of matchCodecs that depends on the codec.
  unfoldable pub match_parameters : String → Bool → Bool → Json → Json → Verdict
  match_parameters mime strict modify a b =
      if matches_nocase mime "video/h264" && strict
      then match_h264 modify a b
      else if matches_nocase mime "video/vp9" && strict
      then match_vp9 a b
      else ok (true, a, b)

  abbrev channels_agree : Option Json → Option Json → Bool
  channels_agree none none = true
  channels_agree (some v) (some w) = json_eq v w
  channels_agree _ _ = false

  unfoldable pub match_codecs : Bool → Bool → Json → Json → Verdict
  match_codecs strict modify a b = do
    a_value ← find_value "mimeType" a
    a_mime ← get_string a_value
    b_value ← find_value "mimeType" b
    b_mime ← get_string b_value
    if not (same_codes (lower (codes a_mime)) (lower (codes b_mime))) then ok (false, a, b) else do
      (a', a_rate) ← element "clockRate" a
      (b', b_rate) ← element "clockRate" b
      if json_eq a_rate b_rate && channels_agree (find "channels" a') (find "channels" b')
          then match_parameters a_mime strict modify a' b'
          else ok (false, a', b')

-- Both members are read, and compared.
unfoldable pub same_member : String → Json → Json → Result Bool
same_member key a b = do v ← const_element key a; w ← const_element key b; ok (json_eq v w)

-- Two tests, the second of which is made only if the first passes.
abbrev pub and_then : Result Bool → Result Bool → Result Bool
and_then r s = do passed ← r; if passed then s else ok false

unfoldable pub match_header_extensions : Json → Json → Result Bool
match_header_extensions a b = and_then (same_member "kind" a b) (same_member "uri" a b)

unfoldable pub same_feedback : Json → Json → Result Bool
same_feedback a b = and_then (same_member "type" a b) (same_member "parameter" a b)

abbrev pub option_list {ℓ} : {A : Type ℓ} → Option A → List A
option_list none = []
option_list (some x) = x ∷ []

unfoldable pub reduce_rtcp_feedback : Json → Json → Result (List Json)
reduce_rtcp_feedback a b = do
  a_feedback ← find_value "rtcpFeedback" a
  b_feedback ← find_value "rtcpFeedback" b
  flat_map
      (λ fb. do found ← find_if (same_feedback fb) (iterate b_feedback); ok (option_list found))
      (iterate a_feedback)
