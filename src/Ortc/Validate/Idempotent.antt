-- ===== src/Ortc/Validate/Idempotent.antt =====
-- Validation fills in defaults once: what a validator of src/ortc.cpp returns, it returns again.
mod Codec
use libmediasouphandler.Base.{
  String, Bool, true, false, Option, none, some, List, [], ◌∷◌, ◌≡◌, refl, ◌==◌, Bool-cases, inl,
  inr, if◌then◌else◌,
}
use libmediasouphandler.Base.Int.{pos}
use libmediasouphandler.Base.Result.{
  Result, ok, err, guard, ◌>>=◌, ◌>>◌, Ensures, Ensures-ok, Ensures-err, Ensures-bind,
  Ensures-bind_eq, Ensures-guard, Ensures-mono,
}
use libmediasouphandler.Json.{
  Json, arr, obj, nil, cons, end, str, boolean, number_integer, Fields, get, array, to_list,
  traverse, traverse_stable, to_list-of_list, All, is_array, is_object, is_boolean, is_string,
  is_number_integer,
}
use libmediasouphandler.Ortc.Rule.{
  Rule, run, validate, distinct, fresh, mandatory, optional, fill, default_to, then_step, each,
  within,
}
use libmediasouphandler.Ortc.Rule.Laws.{get-run}
use libmediasouphandler.Ortc.Rule.Stable.{
  IsStable, IsIdempotent, run_stable, validate_stable, mandatory-IsStable, optional-IsStable,
  fill-IsStable, default_to-IsStable, each-IsStable, within-IsStable, then_step-IsStable,
  each_keeps, within_keeps, validate-is_object, ◌&◌,
}
use libmediasouphandler.Ortc.Validate.Codec.{
  validate_rtcp_feedback, mime_kind, channels_step, check_codec_parameters, codec_parameters_step,
  parameters_rule, feedback_rule, codec_capability_rules, validate_codec, validate_codec_capability,
  codec_parameters_rules, validate_codec_parameters,
}
use libmediasouphandler.Ortc.Validate.Extension.{
  is_text, is_kind, validate_header_extension, check_extension_parameters,
  extension_parameters_step, validate_header_extension_parameters,
}
use libmediasouphandler.Ortc.Validate.Params.{
  array_rule, validate_rtp_capabilities, validate_encoding, rtx_rules, validate_rtcp, rtcp_rules,
  validate_rtp_parameters,
}
use Codec.{
  filled_array-IsStable, mandatory_array-IsStable, codec_capability-IsIdempotent,
  codec_parameters-IsIdempotent,
}

header_extension-IsIdempotent : IsIdempotent validate_header_extension
unfolding validate_header_extension mandatory
header_extension-IsIdempotent = validate_stable _ _ refl (
    kind_stable
    & mandatory-IsStable _ _
    & mandatory-IsStable _ _
    & fill-IsStable is_boolean _ _ refl
    & fill-IsStable is_string _ _ refl
    & tt)
  where
    keep :
        (o : Option Json)
        → mandatory is_string "missing ext.kind" o ≡ ok o
        → Ensures
            (λ o'. mandatory is_string "missing ext.kind" o' ≡ ok o')
            (mandatory is_kind "invalid ext.kind" o)
    keep none e = Ensures-err _
    keep (some v) e = Ensures-guard (is_kind v) _ _ λ h. Ensures-ok e

    kind_stable :
        IsStable (
          then_step (mandatory is_string "missing ext.kind") (mandatory is_kind "invalid ext.kind"))
    kind_stable = then_step-IsStable _ _ (mandatory-IsStable _ _) (mandatory-IsStable _ _) keep

extension_parameters_step-IsStable : IsStable extension_parameters_step
unfolding extension_parameters_step
extension_parameters_step-IsStable none = Ensures-ok refl
extension_parameters_step-IsStable (some (obj ps)) =
    Ensures-bind_eq (check_extension_parameters ps) _ λ u e. Ensures-ok (rw e)
extension_parameters_step-IsStable (some j) = Ensures-ok refl

header_extension_parameters-IsIdempotent : IsIdempotent validate_header_extension_parameters
unfolding validate_header_extension_parameters default_to extension_parameters_step
header_extension_parameters-IsIdempotent = validate_stable _ _ refl (
    mandatory-IsStable _ _
    & mandatory-IsStable _ _
    & fill-IsStable is_boolean _ _ refl
    & then_step-IsStable _ _ (default_to-IsStable is_object _ refl)
        extension_parameters_step-IsStable keep
    & tt)
  where
    keep :
        (o : Option Json)
        → default_to is_object (obj end) o ≡ ok o
        → Ensures (λ o'. default_to is_object (obj end) o' ≡ ok o') (extension_parameters_step o)
    keep none e = Ensures-ok e
    keep (some (obj ps)) e = Ensures-bind_eq (check_extension_parameters ps) _ λ u e'. Ensures-ok e
    keep (some j) e = Ensures-ok e

encoding-IsIdempotent : IsIdempotent validate_encoding
unfolding validate_encoding
encoding-IsIdempotent = validate_stable _ _ refl (
    optional-IsStable _ _
    & optional-IsStable _ _
    & within-IsStable _ (validate_stable _ rtx_rules refl (mandatory-IsStable _ _ & tt))
    & default_to-IsStable is_boolean _ refl
    & optional-IsStable _ _
    & tt)

rtcp-IsIdempotent : IsIdempotent validate_rtcp
unfolding validate_rtcp
rtcp-IsIdempotent =
    validate_stable _ _ refl (optional-IsStable _ _ & default_to-IsStable is_boolean _ refl & tt)

rtcp_keeps :
    (v : Json)
    → Ensures
        (λ w. fill is_object "params.rtcp is not an object" (obj end) (some w) ≡ ok (some w))
        (validate_rtcp v)
unfolding validate_rtcp fill
rtcp_keeps v = Ensures-mono _ (validate-is_object _ rtcp_rules v) λ w e. rw e

capabilities-IsIdempotent : IsIdempotent validate_rtp_capabilities
unfolding validate_rtp_capabilities
capabilities-IsIdempotent = validate_stable _ _ refl (
    filled_array-IsStable _ validate_codec_capability codec_capability-IsIdempotent
    & filled_array-IsStable _ validate_header_extension header_extension-IsIdempotent
    & tt)

parameters-IsIdempotent : IsIdempotent validate_rtp_parameters
unfolding validate_rtp_parameters fill
parameters-IsIdempotent = validate_stable _ _ refl (
    optional-IsStable _ _
    & mandatory_array-IsStable _ validate_codec_parameters codec_parameters-IsIdempotent
    & filled_array-IsStable _ validate_header_extension_parameters
        header_extension_parameters-IsIdempotent
    & filled_array-IsStable _ validate_encoding encoding-IsIdempotent
    & then_step-IsStable _ _ (fill-IsStable is_object _ _ refl)
        (within-IsStable validate_rtcp rtcp-IsIdempotent) (within_keeps _ validate_rtcp rtcp_keeps)
    & tt)

-- What validateRtpCapabilities returns, with every default filled in, it returns unchanged when it
-- is given it again; so a second validation of the same capabilities neither throws nor changes them.
pub rtp_capabilities_idempotent :
    (caps valid : Json)
    → validate_rtp_capabilities caps ≡ ok valid
    → validate_rtp_capabilities valid ≡ ok valid
rtp_capabilities_idempotent caps valid = (capabilities-IsIdempotent caps).returns valid

-- What validateRtpParameters returns, it returns unchanged when it is given it again.
pub rtp_parameters_idempotent :
    (parameters valid : Json)
    → validate_rtp_parameters parameters ≡ ok valid
    → validate_rtp_parameters valid ≡ ok valid
rtp_parameters_idempotent parameters valid = (parameters-IsIdempotent parameters).returns valid
