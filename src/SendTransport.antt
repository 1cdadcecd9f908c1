-- ===== src/SendTransport.antt =====
-- Data channels on the sending side: the tests of SendTransport::ProduceData of src/Transport.cpp, and
-- the stream parameters and ids of SendHandler::SendDataChannel of src/Handler.cpp. Handler.Channels has
-- the two functions.
pub mod Limits
use libmediasouphandler.Base.{
  ℕ, suc, ◌+◌, ◌%◌, ◌^◌, ℤ, String, Bool, true, false, not, ◌&&◌, Option, none, some, List, [], ◌∷◌,
  ◌++◌, if◌then◌else◌,
}
use libmediasouphandler.Base.Int.{pos, negsuc, eqb_ℤ}
use libmediasouphandler.Base.Result.{Error, Result, ok, err, error, guard, ◌>>=◌, ◌>>◌}
use libmediasouphandler.Json.{
  Json, boolean, number_integer, number_unsigned, str, obj, Fields, put, members,
}
use libmediasouphandler.Ortc.Validate.Sctp.{validate_sctp_stream_parameters}
use libmediasouphandler.Ortc.Extended.{with_member}

-- The fields of webrtc::DataChannelInit that the program sets.
pub record DataChannelInit : Type 0 where
  pub protocol : String
  pub ordered : Bool
  pub max_retransmits : Option ℤ
  pub max_retransmit_time : Option ℤ

abbrev pub is_zero : ℤ → Bool
is_zero z = eqb_ℤ z (pos 0)

abbrev pub is_minus_one : ℤ → Bool
is_minus_one z = eqb_ℤ z (negsuc 0)

abbrev pub unless_zero : ℤ → Option ℤ
unless_zero z = if is_zero z then none else some z

-- The tests of ProduceData, and what it asks of the handler.
unfoldable pub channel_init : Bool → String → Bool → ℤ → ℤ → Result DataChannelInit
channel_init has_sctp protocol ordered max_retransmits max_packet_life_time = do
  guard has_sctp (error "SctpParameters are mandatory when using data producer listener")
  guard (not (not (is_minus_one max_retransmits) && not (is_zero max_packet_life_time)))
      (error "Cannot set both maxRetransmits and maxPacketLifeTime")
  ok (record {
    protocol = protocol;
    ordered = ordered;
    max_retransmits = unless_zero max_retransmits;
    max_retransmit_time = unless_zero max_packet_life_time;
  })

abbrev as_number : Option ℤ → Option Json
as_number none = none
as_number (some z) = some (number_integer z)

-- The SCTP stream parameters that SendDataChannel builds.
unfoldable pub stream_parameters : ℕ → DataChannelInit → Fields
unfolding put
stream_parameters stream_id init = with_member "maxRetransmits" (as_number init.max_retransmits) (
    with_member "maxPacketLifeTime" (as_number init.max_retransmit_time) (
      members (
        ("streamId", number_unsigned stream_id)
        ∷ ("ordered", boolean init.ordered)
        ∷ ("protocol", str init.protocol)
        ∷ [])))

-- SctpNumStreamsMis.
abbrev pub num_streams : ℕ
num_streams = 1024

-- The handler's next stream id is a uint32_t, of which the stream's is the low half.
unfoldable pub next_stream_id : ℕ → ℕ
next_stream_id n = (n + 1) % 2 ^ 32 % num_streams
