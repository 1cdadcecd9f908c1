-- ===== src/Transport/Create.antt =====
-- The constructors of SendTransport and RecvTransport (src/Transport.cpp). The handler's constructor is a
-- parameter.
use libmediasouphandler.Base.{ℕ, String, Bool, false, [], ◌∷◌, if◌then◌else◌}
use libmediasouphandler.Base.Result.{Result, ok, ◌>>=◌}
use libmediasouphandler.Base.Int.{to_unsigned}
use libmediasouphandler.Json.{Json, object, is_object, is_number_integer, find_value, get_integer}
use libmediasouphandler.Ortc.Send.{get_sending_rtp_parameters, get_sending_remote_rtp_parameters}
use libmediasouphandler.Transport.{Transport}

-- The SCTP maximum message size of parameters that are an object; one that is missing is read all
-- the same.
abbrev message_size : Json → Result ℕ
unfolding find_value
message_size sctp = do
  size ← find_value "maxMessageSize" sctp
  if is_number_integer size then (do n ← get_integer size; ok (to_unsigned 64 n)) else ok 0

unfoldable pub max_message_size : Json → Result ℕ
unfolding message_size
max_message_size sctp = if is_object sctp then message_size sctp else ok 0

-- The parameters of both kinds.
unfoldable pub by_kind : (String → Json → Result Json) → Json → Result Json
by_kind sending extended = do
  audio ← sending "audio" extended
  video ← sending "video" extended
  ok (object (("audio", audio) ∷ ("video", video) ∷ []))

module _ {H : Type 0} where
  abbrev pub made : Bool → ℕ → H → Transport H
  made sctp size h = record {
    closed = false;
    connection_state = "new";
    has_sctp_parameters = sctp;
    max_sctp_message_size = size;
    probator_consumer_created = false;
    handler = h;
  }

  -- `make` is given the sending parameters by kind, and those of the other side.
  unfoldable pub new_send_transport : (Json → Json → Result H) → Json → Json → Result (Transport H)
  unfolding max_message_size by_kind get_sending_rtp_parameters get_sending_remote_rtp_parameters
  new_send_transport make extended sctp = do
    size ← max_message_size sctp
    sending ← by_kind get_sending_rtp_parameters extended
    remote ← by_kind get_sending_remote_rtp_parameters extended
    handler ← make sending remote
    ok (made (is_object sctp) size handler)

  unfoldable pub new_recv_transport : Result H → Json → Result (Transport H)
  new_recv_transport make sctp = do handler ← make; ok (made (is_object sctp) 0 handler)
