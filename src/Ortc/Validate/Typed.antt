-- ===== src/Ortc/Validate/Typed.antt =====
-- The types of what the validators of src/ortc.cpp return: RTP capabilities with all their members.
use libmediasouphandler.Base.{
  String, Bool, true, false, not, ◌||◌, Option, none, some, List, [], ◌∷◌, ◌≡◌, refl, ◌∙◌, ◌==◌,
  if◌then◌else◌,
}
use libmediasouphandler.Base.Int.{pos}
use libmediasouphandler.Base.Result.{
  ok, err, type_error, Ensures, Ensures-ok, Ensures-err, Ensures-bind, Ensures-bind_eq,
  Ensures-guard, Ensures-mono,
}
use libmediasouphandler.Json.{
  Json, null, boolean, number_integer, number_unsigned, number_float, str, arr, obj, Fields, end,
  field, get, array, is_string, is_boolean, is_number_integer, is_array, is_object,
}
use libmediasouphandler.Ortc.Mime.{media_type}
use libmediasouphandler.Ortc.Rule.{Rule, run, validate, distinct, mandatory, default_to, then_step}
use libmediasouphandler.Ortc.Rule.Laws.{get-run}
use libmediasouphandler.Ortc.Rule.Stable.{◌&◌}
use libmediasouphandler.Ortc.Rule.Typed.{
  Has, MayHave, HasAll, Gives, GivesAll, Members, keys_of, member_keys, run-Members, mandatory-Has,
  optional-MayHave, fill-Has, default_to-Has, then_each-HasAll,
}
use libmediasouphandler.Ortc.Validate.Codec.{
  rtcp_feedback_rules, validate_rtcp_feedback, mime_kind, channels_step, codec_parameter_type,
  check_codec_parameters, codec_parameters_step, parameters_rule, codec_capability_rules,
  validate_codec, validate_codec_capability,
}
use libmediasouphandler.Ortc.Validate.Extension.{
  is_text, is_kind, header_extension_rules, validate_header_extension,
}
use libmediasouphandler.Ortc.Validate.Params.{rtp_capabilities_rules, validate_rtp_capabilities}

-- An object whose members are known.
abbrev pub ObjectWith : List (String × (Option Json → Type 0)) → Json → Type 0
ObjectWith qs j = (fs : Fields) × (j ≡ obj fs) × Members qs fs

abbrev feedback_members : List (String × (Option Json → Type 0))
feedback_members = ("type", Has is_string) ∷ ("parameter", Has is_string) ∷ []

abbrev pub IsRtcpFeedback : Json → Type 0
IsRtcpFeedback = ObjectWith feedback_members

-- A codec's parameters are texts, numbers and nulls, and apt is an integer.
abbrev pub AreParameters : Fields → Type 0
AreParameters end = Unit
AreParameters (field key v rest) =
    (codec_parameter_type v ≡ true)
    × ((not (key == "apt") || is_number_integer v) ≡ true)
    × AreParameters rest

abbrev pub HasParameters : Option Json → Type 0
HasParameters o = (ps : Fields) × (o ≡ some (obj ps)) × AreParameters ps

-- The channels of an audio codec, and of no other.
abbrev pub HasChannels : String → Option Json → Type 0
HasChannels kind o = if kind == "audio" then Has is_number_integer o else (o ≡ none)

abbrev pub codec_members : String → List (String × (Option Json → Type 0))
codec_members kind =
    ("kind", λ o. o ≡ some (str kind))
    ∷ ("preferredPayloadType", MayHave is_number_integer)
    ∷ ("clockRate", Has is_number_integer)
    ∷ ("channels", HasChannels kind)
    ∷ ("parameters", HasParameters)
    ∷ ("rtcpFeedback", HasAll IsRtcpFeedback)
    ∷ []

-- A codec has a MIME type, whose media type is its kind.
abbrev pub IsCodecCapability : Json → Type 0
IsCodecCapability j =
    (fs : Fields) × (mime_type : String) × (kind : String) × (j ≡ obj fs)
    × (get "mimeType" fs ≡ some (str mime_type))
    × (media_type mime_type ≡ some kind)
    × Members (codec_members kind) fs

abbrev extension_members : List (String × (Option Json → Type 0))
extension_members =
    ("kind", Has is_kind)
    ∷ ("uri", Has is_text)
    ∷ ("preferredId", Has is_number_integer)
    ∷ ("preferredEncrypt", Has is_boolean)
    ∷ ("direction", Has is_string)
    ∷ []

abbrev pub IsHeaderExtension : Json → Type 0
IsHeaderExtension = ObjectWith extension_members

abbrev capabilities_members : List (String × (Option Json → Type 0))
capabilities_members =
    ("codecs", HasAll IsCodecCapability) ∷ ("headerExtensions", HasAll IsHeaderExtension) ∷ []

abbrev pub IsRtpCapabilities : Json → Type 0
IsRtpCapabilities = ObjectWith capabilities_members

validate-ObjectWith :
    (message : String) (rs : List Rule) (qs : List (String × (Option Json → Type 0)))
    → distinct rs ≡ true
    → keys_of rs ≡ member_keys qs
    → GivesAll rs qs
    → (j : Json) → Ensures (ObjectWith qs) (validate message rs j)
unfolding validate
validate-ObjectWith message rs qs d k g (obj fs) =
    Ensures-bind (run rs fs) _ (run-Members rs qs fs d k g) λ fs' m. Ensures-ok (fs', refl, m)
validate-ObjectWith message rs qs d k g j = Ensures-err _

feedback-IsRtcpFeedback : (j : Json) → Ensures IsRtcpFeedback (validate_rtcp_feedback j)
unfolding validate_rtcp_feedback
feedback-IsRtcpFeedback =
    validate-ObjectWith _ rtcp_feedback_rules feedback_members refl refl
      (mandatory-Has _ _ & default_to-Has is_string _ refl & tt)

kind_step-Has :
    Gives
      (then_step (mandatory is_string "missing ext.kind") (mandatory is_kind "invalid ext.kind"))
      (Has is_kind)
unfolding then_step
kind_step-Has o =
    Ensures-bind (mandatory is_string "missing ext.kind" o) _
      (mandatory-Has is_string "missing ext.kind" o)
      λ o' h. mandatory-Has is_kind "invalid ext.kind" o'

extension-IsHeaderExtension : (j : Json) → Ensures IsHeaderExtension (validate_header_extension j)
unfolding validate_header_extension
extension-IsHeaderExtension =
    validate-ObjectWith _ header_extension_rules extension_members refl refl (
      kind_step-Has
      & mandatory-Has _ _
      & mandatory-Has _ _
      & fill-Has is_boolean _ _ refl
      & fill-Has is_string _ _ refl
      & tt)

check-AreParameters : (ps : Fields) → Ensures (λ u. AreParameters ps) (check_codec_parameters ps)
check-AreParameters end = Ensures-ok tt
check-AreParameters (field key v rest) = Ensures-guard (codec_parameter_type v) _ _ λ e.
    Ensures-guard (not (key == "apt") || is_number_integer v) _ _
      λ a. Ensures-mono (check_codec_parameters rest) (check-AreParameters rest) λ u h. (e, a, h)

is_object-eq : (v : Json) → is_object v ≡ true → (fs : Fields) × (v ≡ obj fs)
is_object-eq (obj fs) t = (fs, refl)
is_object-eq null t = cc
is_object-eq (boolean b) t = cc
is_object-eq (number_integer z) t = cc
is_object-eq (number_unsigned n) t = cc
is_object-eq (number_float z k) t = cc
is_object-eq (str s) t = cc
is_object-eq (arr xs) t = cc

parameters-HasParameters : Gives parameters_rule.step HasParameters
unfolding then_step codec_parameters_step
parameters-HasParameters o =
    Ensures-bind (default_to is_object (obj end) o) codec_parameters_step
      (default_to-Has is_object (obj end) refl o)
      λ o' (v, e, t).
        let (ps, q) = is_object-eq v t in
        rw (e, q)
          (Ensures-bind (check_codec_parameters ps) _ (check-AreParameters ps)
            λ u h. Ensures-ok (ps, refl, h))

channels-HasChannels : (kind : String) → Gives (channels_step kind) (HasChannels kind)
unfolding channels_step
channels-HasChannels kind o = by_audio (kind == "audio")
  where
    by_audio :
        (b : Bool)
        → Ensures
            (λ o'. if b then Has is_number_integer o' else (o' ≡ none))
            (if b then default_to is_number_integer (number_integer (pos 1)) o else ok none)
    by_audio true = default_to-Has is_number_integer (number_integer (pos 1)) refl o
    by_audio false = Ensures-ok refl

codec_rules-Members : (kind : String) → GivesAll (codec_capability_rules kind) (codec_members kind)
codec_rules-Members kind =
    (λ o. Ensures-ok refl)
    & optional-MayHave _ _
    & mandatory-Has _ _
    & channels-HasChannels kind
    & parameters-HasParameters
    & then_each-HasAll (default_to is_array (array [])) validate_rtcp_feedback IsRtcpFeedback
        (default_to-Has is_array (array []) refl) feedback-IsRtcpFeedback
    & tt

mime_kind-read :
    (o : Option Json)
    → Ensures (λ kind. (s : String) × (o ≡ some (str s)) × (media_type s ≡ some kind)) (mime_kind o)
unfolding mime_kind
mime_kind-read (some (str s)) = read (media_type s) refl
  where
    read :
        (m : Option String)
        → media_type s ≡ m
        → Ensures
            (λ kind. (t : String) × (some (str s) ≡ some (str t)) × (media_type t ≡ some kind))
            (elim m [ none ↦ err (type_error "invalid codec.mimeType") | some kind ↦ ok kind ])
    read none e = Ensures-err _
    read (some kind) e = Ensures-ok (s, refl, e)
mime_kind-read o = Ensures-err _

codec-IsCodecCapability : (j : Json) → Ensures IsCodecCapability (validate_codec_capability j)
unfolding validate_codec_capability validate_codec
codec-IsCodecCapability (obj fs) =
    Ensures-bind (mime_kind (get "mimeType" fs)) _ (mime_kind-read (get "mimeType" fs))
      λ kind (s, g, m). Ensures-bind_eq (run (codec_capability_rules kind) fs) _ λ fs' e.
        let kept = (get-run "mimeType" (codec_capability_rules kind) fs refl).returns fs' e in
        let known =
          (run-Members (codec_capability_rules kind) (codec_members kind) fs refl refl
              (codec_rules-Members kind)).returns
            fs' e in
        Ensures-ok (fs', s, kind, refl, kept ∙ g, m, known)
codec-IsCodecCapability j = Ensures-err _

-- What validateRtpCapabilities returns is an object with arrays of codecs and header extensions. Each
-- codec has a MIME type that the regular expression matches, its media type for a kind, an integer
-- clock rate, an integer payload type or none, channels (an integer) if and only if its kind is
-- "audio", parameters that are texts, numbers or null with an integer for apt, and an array of RTCP
-- feedback, each with texts for type and parameter. Each header extension has a kind, "audio" or
-- "video", a URI that is not empty, an integer id, a Boolean for preferredEncrypt and a text for its
-- direction.
pub validate_rtp_capabilities-Typed :
    (caps valid : Json) → validate_rtp_capabilities caps ≡ ok valid → IsRtpCapabilities valid
unfolding validate_rtp_capabilities
validate_rtp_capabilities-Typed caps valid =
    (validate-ObjectWith _ rtp_capabilities_rules capabilities_members refl refl
        (then_each-HasAll _ validate_codec_capability IsCodecCapability
            (fill-Has is_array _ (array []) refl) codec-IsCodecCapability
          & then_each-HasAll _ validate_header_extension IsHeaderExtension
              (fill-Has is_array _ (array []) refl) extension-IsHeaderExtension
          & tt)
        caps).returns
      valid
