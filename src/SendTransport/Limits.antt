-- ===== src/SendTransport/Limits.antt =====
-- Which reliability limits the validator of SCTP stream parameters lets a data channel have.
use libmediasouphandler.Base.{
  ℕ, ℤ, String, Bool, true, false, not, ◌&&◌, ◌||◌, Option, none, some, ◌≡◌, refl, arith,
}
use libmediasouphandler.Base.Result.{Result, ok, err}
use libmediasouphandler.Json.{obj, get, put, contains, assign}
use libmediasouphandler.Ortc.Rule.{run, mandatory, default_to}
use libmediasouphandler.Ortc.Validate.Sctp.{validate_sctp_stream_parameters, settle_ordered}
use libmediasouphandler.SendTransport.{DataChannelInit, stream_parameters, is_zero, unless_zero}

abbrev pub returned {ℓ} : {A : Type ℓ} → Result A → Bool
returned (ok a) = true
returned (err e) = false

abbrev pub given : Option ℤ → Bool
given none = false
given (some z) = true

-- A channel takes one limit at most, and none if it is ordered.
abbrev pub allowed : Bool → Bool → Bool → Bool
allowed ordered life retransmits =
    not (life && retransmits) && not (ordered && (life || retransmits))

abbrev pub allowed_init : DataChannelInit → Bool
allowed_init init =
    allowed init.ordered (given init.max_retransmit_time) (given init.max_retransmits)

limits_allowed :
    (n : ℕ) (protocol : String) (ordered : Bool) (r l : Option ℤ)
    → returned (
        validate_sctp_stream_parameters (
          obj (
            stream_parameters n (record {
              protocol = protocol;
              ordered = ordered;
              max_retransmits = r;
              max_retransmit_time = l;
            }))))
      ≡ allowed ordered (given l) (given r)
unfolding validate_sctp_stream_parameters stream_parameters run settle_ordered mandatory default_to
    get put contains assign
limits_allowed n protocol true none none = refl
limits_allowed n protocol true none (some l) = refl
limits_allowed n protocol true (some r) none = refl
limits_allowed n protocol true (some r) (some l) = refl
limits_allowed n protocol false none none = refl
limits_allowed n protocol false none (some l) = refl
limits_allowed n protocol false (some r) none = refl
limits_allowed n protocol false (some r) (some l) = refl

pub stream_allowed :
    (n : ℕ) (init : DataChannelInit)
    → returned (validate_sctp_stream_parameters (obj (stream_parameters n init)))
      ≡ allowed_init init
stream_allowed n init =
    limits_allowed n init.protocol init.ordered init.max_retransmits init.max_retransmit_time

pub given-unless_zero : (z : ℤ) → given (unless_zero z) ≡ not (is_zero z)
given-unless_zero z = ground arith
