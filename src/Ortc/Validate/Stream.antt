-- ===== src/Ortc/Validate/Stream.antt =====
-- validateSctpStreamParameters: how the reliability limits decide `ordered`.
use libmediasouphandler.Base.{
  Bool, true, false, ◌&&◌, ◌||◌, Option, none, some, ◌≡◌, refl, ap, ◌∙◌, arith,
}
use libmediasouphandler.Base.Result.{ok, >>=-eq-ok, ok_injective}
use libmediasouphandler.Json.{
  Json, obj, boolean, Fields, get, get-put, contains, is_boolean, obj_injective,
}
use libmediasouphandler.Ortc.Rule.{run, default_to}
use libmediasouphandler.Ortc.Rule.Laws.{run_memberwise}
use libmediasouphandler.Ortc.Validate.Sctp.{
  validate_sctp_stream_parameters, settle_ordered, given_boolean, stream_first_rules,
  stream_last_rules,
}

-- The value of `ordered` that the limits ask for: what the caller says, else true, but false under
-- a limit.
abbrev pub settled_order : Option Json → Bool → Option Json
settled_order o true = some (boolean false)
settled_order (some (boolean b)) false = some (boolean b)
settled_order _ false = some (boolean true)

settle-eq-ok :
    (o : Option Json) (life retransmits : Bool) (fs₁ fs₂ : Fields)
    → default_to is_boolean (boolean true) o ≡ ok (get "ordered" fs₁)
    → settle_ordered (given_boolean o) life retransmits fs₁ ≡ ok fs₂
    → ((life && retransmits) ≡ false) × (get "ordered" fs₂ ≡ settled_order o (life || retransmits))
unfolding default_to settle_ordered
settle-eq-ok none life retransmits fs₁ fs₂ d e =
    ground (arith, get-put "ordered" "ordered" (boolean false) fs₁)
settle-eq-ok (some (boolean b)) life retransmits fs₁ fs₂ d e =
    ground (arith, get-put "ordered" "ordered" (boolean false) fs₁)
settle-eq-ok (some v) life retransmits fs₁ fs₂ d e =
    ground (arith, get-put "ordered" "ordered" (boolean false) fs₁)

-- The parts of a validation that returns: the first rules, the limits, the last rules.
stream_parts :
    (fs fs' : Fields)
    → validate_sctp_stream_parameters (obj fs) ≡ ok (obj fs')
    → (fs₁ : Fields) × (fs₂ : Fields) × (run stream_first_rules fs ≡ ok fs₁)
      × (settle_ordered
            (given_boolean (get "ordered" fs))
            (contains "maxPacketLifeTime" fs)
            (contains "maxRetransmits" fs)
            fs₁
          ≡ ok fs₂)
      × (run stream_last_rules fs₂ ≡ ok fs')
unfolding validate_sctp_stream_parameters
stream_parts fs fs' e =
    let (fs₁, r₁, e₁) = >>=-eq-ok (run stream_first_rules fs) _ e in
    let (fs₂, r₂, e₂) =
      >>=-eq-ok
        (settle_ordered (given_boolean (get "ordered" fs)) (contains "maxPacketLifeTime" fs)
          (contains "maxRetransmits" fs) fs₁)
        _ e₁ in
    let (fs₃, r₃, e₃) = >>=-eq-ok (run stream_last_rules fs₂) _ e₂ in
    (fs₁, fs₂, r₁, r₂, r₃ ∙ ap ok (obj_injective (ok_injective e₃)))

-- If validateSctpStreamParameters accepts parameters, these do not give both maxPacketLifeTime and
-- maxRetransmits, and `ordered` ends as settled_order says: false if either is given, else the Boolean
-- that the caller gave, else true.
pub stream_ordered :
    (fs fs' : Fields)
    → validate_sctp_stream_parameters (obj fs) ≡ ok (obj fs')
    → ((contains "maxPacketLifeTime" fs && contains "maxRetransmits" fs) ≡ false)
      × (get "ordered" fs'
          ≡ settled_order
              (get "ordered" fs)
              (contains "maxPacketLifeTime" fs || contains "maxRetransmits" fs))
stream_ordered fs fs' e =
    let (fs₁, fs₂, r₁, s, r₃) = stream_parts fs fs' e in
    let (first, _) = run_memberwise stream_first_rules fs fs₁ refl r₁ in
    let (_, kept) = run_memberwise stream_last_rules fs₂ fs' refl r₃ in
    let (one, ordered) =
      settle-eq-ok (get "ordered" fs) (contains "maxPacketLifeTime" fs)
        (contains "maxRetransmits" fs) fs₁ fs₂ first.1.0 s in
    (one, kept "ordered" refl ∙ ordered)
