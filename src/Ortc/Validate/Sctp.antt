-- ===== src/Ortc/Validate/Sctp.antt =====
-- validateSctpCapabilities, validateNumSctpStreams, validateSctpParameters and
-- validateSctpStreamParameters.
use libmediasouphandler.Base.{
  Bool, true, false, not, ◌&&◌, ◌||◌, Option, some, List, [], ◌∷◌, if◌then◌else◌,
}
use libmediasouphandler.Base.Result.{Result, ok, err, type_error, guard, ◌>>=◌, ◌>>◌}
use libmediasouphandler.Json.{
  Json, boolean, number_unsigned, str, obj, Fields, get, put, contains, is_string, is_boolean,
  is_number_integer, is_object,
}
use libmediasouphandler.Ortc.Rule.{Rule, run, validate, mandatory, default_to, then_step, within}

abbrev pub num_streams_rules : List Rule
num_streams_rules =
    record { key = "OS"; step = mandatory is_number_integer "missing numStreams.OS" }
    ∷ record { key = "MIS"; step = mandatory is_number_integer "missing numStreams.MIS" }
    ∷ []

unfoldable pub validate_num_streams : Json → Result Json
validate_num_streams = validate "numStreams is not an object" num_streams_rules

abbrev pub sctp_capabilities_rules : List Rule
sctp_capabilities_rules =
    record {
      key = "numStreams";
      step =
          then_step (mandatory is_object "missing caps.numStreams") (within validate_num_streams);
    }
    ∷ []

unfoldable pub validate_sctp_capabilities : Json → Result Json
validate_sctp_capabilities = validate "caps is not an object" sctp_capabilities_rules

abbrev pub sctp_parameters_rules : List Rule
sctp_parameters_rules =
    record { key = "port"; step = mandatory is_number_integer "missing params.port" }
    ∷ record { key = "OS"; step = mandatory is_number_integer "missing params.OS" }
    ∷ record { key = "MIS"; step = mandatory is_number_integer "missing params.MIS" }
    ∷ record {
      key = "maxMessageSize";
      step = mandatory is_number_integer "missing params.maxMessageSize";
    }
    ∷ []

unfoldable pub validate_sctp_parameters : Json → Result Json
validate_sctp_parameters = validate "params is not an object" sctp_parameters_rules

-- The member is a Boolean, and that it is true.
abbrev pub given_boolean : Option Json → Bool
given_boolean (some (boolean b)) = true
given_boolean _ = false

abbrev pub given_true : Option Json → Bool
given_true (some (boolean true)) = true
given_true _ = false

abbrev pub stream_first_rules : List Rule
stream_first_rules =
    record { key = "streamId"; step = mandatory is_number_integer "missing params.streamId" }
    ∷ record { key = "ordered"; step = default_to is_boolean (boolean true) }
    ∷ record { key = "maxPacketLifeTime"; step = default_to is_number_integer (number_unsigned 0) }
    ∷ record { key = "maxRetransmits"; step = default_to is_number_integer (number_unsigned 0) }
    ∷ []

abbrev pub stream_last_rules : List Rule
stream_last_rules =
    record { key = "label"; step = default_to is_string (str "") }
    ∷ record { key = "protocol"; step = default_to is_string (str "") }
    ∷ []

-- What a reliability limit makes of `ordered`: the three flags were read before the defaults came in.
unfoldable pub settle_ordered : Bool → Bool → Bool → Fields → Result Fields
settle_ordered ordered_given life_given retransmits_given fs = do
  guard (not (life_given && retransmits_given))
      (type_error "cannot provide both maxPacketLifeTime and maxRetransmits")
  guard (not (ordered_given && given_true (get "ordered" fs) && (life_given || retransmits_given)))
      (type_error "cannot be ordered with maxPacketLifeTime or maxRetransmits")
  ok (
      if not ordered_given && (life_given || retransmits_given)
      then put "ordered" (boolean false) fs
      else fs)

unfoldable pub validate_sctp_stream_parameters : Json → Result Json
validate_sctp_stream_parameters (obj fs) = do
  fs₁ ← run stream_first_rules fs
  fs₂ ←
      settle_ordered (given_boolean (get "ordered" fs)) (contains "maxPacketLifeTime" fs)
        (contains "maxRetransmits" fs) fs₁
  fs₃ ← run stream_last_rules fs₂
  ok (obj fs₃)
validate_sctp_stream_parameters _ = err (type_error "params is not an object")
