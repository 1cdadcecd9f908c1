-- ===== src/Handler/Channels.antt =====
-- Data channels of the handlers of src/Handler.cpp: SendHandler::SendDataChannel and
-- RecvHandler::ReceiveDataChannel, and SendTransport::ProduceData of src/Transport.cpp.
use libmediasouphandler.Base.{
  ℤ, ◌%◌, ◌^◌, String, Bool, true, false, Option, none, some, [], ◌∷◌, ◌==◌, if◌then◌else◌,
}
use libmediasouphandler.Base.Int.{pos}
use libmediasouphandler.Base.Result.{Result, ok, err, error}
use libmediasouphandler.Base.Result as Result
use libmediasouphandler.Base.State.{Method, ◌>>=◌, ◌>>◌, lift, pure, read, modify}
use libmediasouphandler.Json.{
  Json, boolean, number_integer, obj, members, iterate, find_if, get_string, get_at, member_or_null,
}
use libmediasouphandler.Ortc.Validate.Sctp.{validate_sctp_stream_parameters}
use libmediasouphandler.SendTransport.{
  DataChannelInit, channel_init, stream_parameters, next_stream_id,
}
use libmediasouphandler.Sdp.RemoteSdp.{
  get_next_media_section_idx, send_sctp_association, recv_sctp_association,
}
use libmediasouphandler.Handler.{Handler, on_pc, on_sdp, ask, ensure_transport}
use libmediasouphandler.Handler.Connection.{Peer, SdpTransform, offer, answer, ChannelConfig}
use libmediasouphandler.Handler.Send.{answer_offer}
use libmediasouphandler.Handler.Recv.{offer_remote}

-- Handler::DataChannel.
pub record DataChannel (D : Type 0) : Type 0 where
  pub data_channel : D
  pub sctp_stream_parameters : Json

abbrev is_application : Json → Result Bool
is_application m =
    Result.◌>>=◌ (get_at "type" m)
      λ type. Result.◌>>=◌ (get_string type) λ text. ok (text == "application")

abbrev found_application : Option Json → Result Json
found_application none = err (error "Missing 'application' media section in SDP offer")
found_application (some m) = ok m

unfoldable pub application_of : Json → Result Json
unfolding member_or_null iterate find_if
application_of sdp =
    Result.◌>>=◌ (member_or_null "media" sdp)
      λ media. Result.◌>>=◌ (find_if is_application (iterate media)) found_application

module _ {P D C Y Q : Type 0} (peer : Peer P D C Y Q) (lib : SdpTransform) where
  abbrev note_section : Method (Handler P) (Unit {0})
  note_section = modify (λ h. record h { has_data_channel_media_section = true })

  -- The section of the first data channel that is sent.
  unfoldable pub send_section : Method (Handler P) (Unit {0})
  unfolding get_next_media_section_idx application_of ensure_transport send_sctp_association
      answer_offer
  send_section = do
    text ← on_pc (peer.create_offer false)
    local ← lift (lib.parse text)
    idx ← ask (λ h. get_next_media_section_idx h.remote_sdp)
    media ← lift (application_of local)
    ensure_transport peer lib "server" local
    on_pc (peer.set_local_description offer text)
    on_sdp (send_sctp_association lib.show_float media)
    answer_offer peer lib
    note_section

  abbrev pub unless_section : Method (Handler P) (Unit {0}) → Method (Handler P) (Unit {0})
  unless_section call h = if h.has_data_channel_media_section then (ok tt, h) else call h

  -- SendDataChannel; the stream id is the low half of the next one.
  unfoldable pub send_channel : String → DataChannelInit → Method (Handler P) (DataChannel D)
  unfolding next_stream_id send_section
  send_channel label init = do
    id ← read (λ h. h.next_send_sctp_stream_id % 2 ^ 16)
    parameters ← lift (validate_sctp_stream_parameters (obj (stream_parameters id init)))
    channel ←
        on_pc
          (peer.create_data_channel label (record { negotiated = true; id = pos id; init = init }))
    modify (λ h. record h { next_send_sctp_stream_id = next_stream_id h.next_send_sctp_stream_id })
    unless_section send_section
    pure (record { data_channel = channel; sctp_stream_parameters = parameters })

  -- SendTransport::ProduceData, which goes on to its handler; `has_sctp` is hasSctpParameters.
  unfoldable pub produce_data :
      Bool → String → String → Bool → ℤ → ℤ → Method (Handler P) (DataChannel D)
  unfolding send_channel channel_init
  produce_data has_sctp label protocol ordered max_retransmits max_packet_life_time = do
    init ← lift (channel_init has_sctp protocol ordered max_retransmits max_packet_life_time)
    send_channel label init

  -- Where the transport is not ready, the answer is parsed for it.
  abbrev pub parse_for_transport : String → Method (Handler P) (Unit {0})
  parse_for_transport text h =
      if h.transport_ready
      then (ok tt, h)
      else (lift (lib.parse text) >>= ensure_transport peer lib "client") h

  -- The section of the first data channel that is received.
  unfoldable pub receive_section : Method (Handler P) (Unit {0})
  unfolding recv_sctp_association offer_remote ensure_transport
  receive_section = do
    on_sdp (recv_sctp_association lib.show_float)
    offer_remote peer lib
    text ← on_pc peer.create_answer
    parse_for_transport text
    on_pc (peer.set_local_description answer text)
    note_section

  -- ReceiveDataChannel.
  unfoldable pub receive_channel : String → ChannelConfig → Method (Handler P) (DataChannel D)
  unfolding validate_sctp_stream_parameters receive_section
  receive_channel label config = do
    parameters ← lift (
        validate_sctp_stream_parameters (
          obj (
            members (
              ("streamId", number_integer config.id)
              ∷ ("ordered", boolean config.init.ordered)
              ∷ []))))
    channel ← on_pc (peer.create_data_channel label (record config { negotiated = true }))
    unless_section receive_section
    pure (record { data_channel = channel; sctp_stream_parameters = parameters })
