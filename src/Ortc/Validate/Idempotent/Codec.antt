-- ===== src/Ortc/Validate/Idempotent/Codec.antt =====
-- Validation of a codec, by validateRtpCodecCapability or validateRtpCodecParameters, fills in
-- defaults once.
use libmediasouphandler.Base.{
  String, true, Option, none, some, List, [], ◌≡◌, refl, ◌==◌, Bool-cases, inl, inr,
}
use libmediasouphandler.Base.Int.{pos}
use libmediasouphandler.Base.Result.{Result, ok, Ensures, Ensures-ok, Ensures-err, Ensures-bind_eq}
use libmediasouphandler.Json.{
  Json, obj, end, number_integer, get, array, All, is_array, is_object, is_string,
  is_number_integer,
}
use libmediasouphandler.Ortc.Rule.{
  Rule, run, distinct, fresh, mandatory, fill, default_to, then_step, each,
}
use libmediasouphandler.Ortc.Rule.Laws.{get-run}
use libmediasouphandler.Ortc.Rule.Stable.{
  IsStable, IsIdempotent, run_stable, validate_stable, mandatory-IsStable, optional-IsStable,
  fill-IsStable, default_to-IsStable, each-IsStable, then_step-IsStable, each_keeps, ◌&◌,
}
use libmediasouphandler.Ortc.Validate.Codec.{
  validate_rtcp_feedback, mime_kind, channels_step, check_codec_parameters, codec_parameters_step,
  parameters_rule, feedback_rule, codec_capability_rules, validate_codec, validate_codec_capability,
  codec_parameters_rules, validate_codec_parameters,
}

-- What an array member goes through, with a default.
pub filled_array-IsStable :
    (message : String) (f : Json → Result Json)
    → IsIdempotent f
    → IsStable (then_step (fill is_array message (array [])) (each f))
unfolding fill
filled_array-IsStable message f h =
    then_step-IsStable _ _ (fill-IsStable is_array message _ refl) (each-IsStable f h)
      (each_keeps _ f λ xs ys t e. refl)

pub mandatory_array-IsStable :
    (message : String) (f : Json → Result Json)
    → IsIdempotent f
    → IsStable (then_step (mandatory is_array message) (each f))
unfolding mandatory
mandatory_array-IsStable message f h =
    then_step-IsStable _ _ (mandatory-IsStable is_array message) (each-IsStable f h)
      (each_keeps _ f λ xs ys t e. refl)

pub rtcp_feedback-IsIdempotent : IsIdempotent validate_rtcp_feedback
unfolding validate_rtcp_feedback
rtcp_feedback-IsIdempotent =
    validate_stable _ _ refl (mandatory-IsStable _ _ & default_to-IsStable is_string _ refl & tt)

feedback-IsStable : IsStable feedback_rule.step
unfolding default_to
feedback-IsStable =
    then_step-IsStable _ _ (default_to-IsStable is_array _ refl)
      (each-IsStable validate_rtcp_feedback rtcp_feedback-IsIdempotent)
      (each_keeps _ validate_rtcp_feedback λ xs ys t e. refl)

codec_parameters_step-IsStable : IsStable codec_parameters_step
unfolding codec_parameters_step
codec_parameters_step-IsStable none = Ensures-ok refl
codec_parameters_step-IsStable (some (obj ps)) =
    Ensures-bind_eq (check_codec_parameters ps) _ λ u e. Ensures-ok (rw e)
codec_parameters_step-IsStable (some j) = Ensures-ok refl

parameters-IsStable : IsStable parameters_rule.step
unfolding default_to codec_parameters_step
parameters-IsStable =
    then_step-IsStable _ _ (default_to-IsStable is_object _ refl) codec_parameters_step-IsStable
      keep
  where
    keep :
        (o : Option Json)
        → default_to is_object (obj end) o ≡ ok o
        → Ensures (λ o'. default_to is_object (obj end) o' ≡ ok o') (codec_parameters_step o)
    keep none e = Ensures-ok e
    keep (some (obj ps)) e = Ensures-bind_eq (check_codec_parameters ps) _ λ u e'. Ensures-ok e
    keep (some j) e = Ensures-ok e

channels-IsStable : (kind : String) → IsStable (channels_step kind)
unfolding channels_step
channels-IsStable kind = elim (Bool-cases (kind == "audio")) [
  | inl e ↦ λ o. rw e (default_to-IsStable is_number_integer (number_integer (pos 1)) refl o)
  | inr e ↦ λ o. rw e (Ensures-ok refl)
]

-- A codec is taken through rules that its media kind decides, and keeps its MIME type.
codec-IsIdempotent :
    (rules : String → List Rule)
    → ((kind : String) → distinct (rules kind) ≡ true)
    → ((kind : String) → fresh "mimeType" (rules kind) ≡ true)
    → ((kind : String) → All (λ r. IsStable r.step) (rules kind))
    → IsIdempotent (validate_codec rules)
unfolding validate_codec
codec-IsIdempotent rules d f s (obj fs) =
    Ensures-bind_eq (mime_kind (get "mimeType" fs)) _ λ kind k.
      Ensures-bind_eq (run (rules kind) fs) _ λ fs' e.
        let same = (get-run "mimeType" (rules kind) fs (f kind)).returns fs' e in
        Ensures-ok (rw (same, k, (run_stable (rules kind) fs (d kind) (s kind)).returns fs' e))
codec-IsIdempotent rules d f s j = Ensures-err _

pub codec_capability-IsIdempotent : IsIdempotent validate_codec_capability
unfolding validate_codec_capability
codec_capability-IsIdempotent =
    codec-IsIdempotent codec_capability_rules (λ kind. refl) (λ kind. refl)
      λ kind.
        (λ o. Ensures-ok refl)
        & optional-IsStable _ _
        & mandatory-IsStable _ _
        & channels-IsStable kind
        & parameters-IsStable
        & feedback-IsStable
        & tt

pub codec_parameters-IsIdempotent : IsIdempotent validate_codec_parameters
unfolding validate_codec_parameters
codec_parameters-IsIdempotent =
    codec-IsIdempotent codec_parameters_rules (λ kind. refl) (λ kind. refl)
      λ kind.
        mandatory-IsStable _ _
        & mandatory-IsStable _ _
        & channels-IsStable kind
        & parameters-IsStable
        & feedback-IsStable
        & tt
