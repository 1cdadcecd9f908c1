-- ===== src/Handler/Runs.antt =====
-- Any sequence of calls of a SendHandler or of a RecvHandler (src/Handler.cpp), each returning or
-- throwing.
use libmediasouphandler.Base.{ℕ, String, Bool, Option, List, [], ◌∷◌, ◌≡◌, refl, inl, inr}
use libmediasouphandler.Base.Result.{Result-cases}
use libmediasouphandler.Base.State.{Method, Keeps, Keeps-bind, Keeps-lift}
use libmediasouphandler.Json.{Json, element}
use libmediasouphandler.Ortc.Match.{H264}
use libmediasouphandler.SendTransport.{DataChannelInit}
use libmediasouphandler.Transport.{present_track}
use libmediasouphandler.Handler.{Handler, get_transport_stats, update_ice_servers, close}
use libmediasouphandler.Handler.Connection.{Peer, SdpTransform, RtpEncoding, ChannelConfig}
use libmediasouphandler.Handler.Encodings.{name_encodings, with_codecs}
use libmediasouphandler.Handler.Send.{
  SendHandler, on_base, parameters_of, remote_parameters_of, send_track,
}
use libmediasouphandler.Handler.Senders.{
  stop_sending, replace_track, set_max_spatial_layer, get_sender_stats, restart_sending_ice,
}
use libmediasouphandler.Handler.Recv.{
  receive_track, stop_receiving, get_receiver_stats, restart_receiving_ice,
}
use libmediasouphandler.Handler.Channels.{send_channel, receive_channel}
use libmediasouphandler.Handler.Connect.{LogsConnects, ConnectedOnce, on_pc-ConnectedOnce, same_log}
use libmediasouphandler.Handler.Connected.{
  stop_sending-ConnectedOnce, replace_track-ConnectedOnce, set_layer-ConnectedOnce,
  get_sender_stats-ConnectedOnce, get_receiver_stats-ConnectedOnce,
  restart_sending_ice-ConnectedOnce, restart_receiving_ice-ConnectedOnce,
  receive_track-ConnectedOnce, stop_receiving-ConnectedOnce,
}
use libmediasouphandler.Handler.Once.{
  send_prepared-ConnectedOnce, send_channel-ConnectedOnce, receive_channel-ConnectedOnce,
  update_ice_servers-ConnectedOnce,
}

pub data SendCall (Y : Type 0) : Type 0 where
  closes asks_stats : SendCall Y
  updates_servers restarts_ice : Json → SendCall Y
  sends : H264 → Option ℕ → List (RtpEncoding Y) → Option Json → Option Json → SendCall Y
  stops_sending asks_sender : String → SendCall Y
  replaces_track : String → Option ℕ → SendCall Y
  sets_layer : String → ℕ → SendCall Y
  sends_channel : String → DataChannelInit → SendCall Y

pub data RecvCall : Type 0 where
  closes asks_stats : RecvCall
  updates_servers restarts_ice : Json → RecvCall
  receives : String → String → Json → RecvCall
  stops_receiving asks_receiver : String → RecvCall
  receives_channel : String → ChannelConfig → RecvCall

module _ {P D C Y Q : Type 0} (peer : Peer P D C Y Q) (lib : SdpTransform) where
  unfoldable pub send_step : SendCall Y → SendHandler P → SendHandler P
  unfolding close
  send_step SendCall.closes s = record s { base = close peer lib s.base }
  send_step SendCall.asks_stats s = (on_base (get_transport_stats peer lib) s).1
  send_step (SendCall.updates_servers uris) s = (on_base (update_ice_servers peer lib uris) s).1
  send_step (SendCall.restarts_ice ice) s = (on_base (restart_sending_ice peer lib ice) s).1
  send_step (sends h264 track es options codec) s =
      (send_track peer lib h264 track es options codec s).1
  send_step (stops_sending local_id) s = (on_base (stop_sending peer lib local_id) s).1
  send_step (asks_sender local_id) s = (on_base (get_sender_stats peer lib local_id) s).1
  send_step (replaces_track local_id track) s =
      (on_base (replace_track peer lib local_id track) s).1
  send_step (sets_layer local_id layer) s =
      (on_base (set_max_spatial_layer peer lib local_id layer) s).1
  send_step (sends_channel label init) s = (on_base (send_channel peer lib label init) s).1

  unfoldable pub send_run : List (SendCall Y) → SendHandler P → SendHandler P
  unfolding send_step
  send_run [] s = s
  send_run (c ∷ cs) s = send_run cs (send_step c s)

  unfoldable pub recv_step : RecvCall → Handler P → Handler P
  unfolding close
  recv_step RecvCall.closes h = close peer lib h
  recv_step RecvCall.asks_stats h = (get_transport_stats peer lib h).1
  recv_step (RecvCall.updates_servers uris) h = (update_ice_servers peer lib uris h).1
  recv_step (RecvCall.restarts_ice ice) h = (restart_receiving_ice peer lib ice h).1
  recv_step (receives id kind parameters) h = (receive_track peer lib id kind parameters h).1
  recv_step (stops_receiving local_id) h = (stop_receiving peer lib local_id h).1
  recv_step (asks_receiver local_id) h = (get_receiver_stats peer lib local_id h).1
  recv_step (receives_channel label config) h = (receive_channel peer lib label config h).1

  unfoldable pub recv_run : List RecvCall → Handler P → Handler P
  unfolding recv_step
  recv_run [] h = h
  recv_run (c ∷ cs) h = recv_run cs (recv_step c h)

  module _ (log : P → List Bool) (logs : LogsConnects peer log) where
    abbrev I : Handler P → Type 0
    I = ConnectedOnce peer log

    abbrev J : SendHandler P → Type 0
    J s = I s.base

    get_transport_stats-ConnectedOnce : Keeps I (get_transport_stats peer lib)
    unfolding get_transport_stats
    get_transport_stats-ConnectedOnce = on_pc-ConnectedOnce peer log peer.get_stats logs.get_stats

    same_base :
        {A : Type 0} (call : Method (SendHandler P) A)
        → ((s : SendHandler P) → (call s).1.base ≡ s.base)
        → Keeps J call
    same_base call e s i = rw (e s) i

    parameters_same : (kind : String) (s : SendHandler P) → (parameters_of kind s).1.base ≡ s.base
    unfolding parameters_of
    parameters_same kind s = elim (Result-cases (element kind s.sending_rtp_parameters_by_kind)) [
      | inl (e, q) ↦ rw q refl
      | inr (x, q) ↦ rw q refl
    ]

    remote_same :
        (kind : String) (s : SendHandler P) → (remote_parameters_of kind s).1.base ≡ s.base
    unfolding remote_parameters_of
    remote_same kind s =
        elim (Result-cases (element kind s.sending_remote_rtp_parameters_by_kind)) [
          | inl (e, q) ↦ rw q refl
          | inr (x, q) ↦ rw q refl
        ]

    send_track-ConnectedOnce :
        (h264 : H264) (track : Option ℕ) (es : List (RtpEncoding Y)) (options codec : Option Json)
        → Keeps J (send_track peer lib h264 track es options codec)
    unfolding send_track
    send_track-ConnectedOnce h264 track es options codec =
        Keeps-lift J (present_track track) _ λ t s.
          let kind = peer.track_kind s.base.pc t in
          Keeps-bind J (parameters_of kind) _
            (same_base (parameters_of kind) (parameters_same kind))
            (λ given. Keeps-lift J (with_codecs h264 codec given) _ λ parameters.
              Keeps-bind J (remote_parameters_of kind) _
                (same_base (remote_parameters_of kind) (remote_same kind))
                λ given_remote. Keeps-lift J (with_codecs h264 codec given_remote) _ λ remote s.
                  send_prepared-ConnectedOnce peer log lib logs t (name_encodings es) options
                    parameters remote s.base)
            s

    send_step-ConnectedOnce : (c : SendCall Y) (s : SendHandler P) → J s → J (send_step c s)
    unfolding send_step close
    send_step-ConnectedOnce SendCall.closes s i =
        same_log peer log s.base _ s.base.remote_sdp (logs.close s.base.pc) i
    send_step-ConnectedOnce SendCall.asks_stats s i = get_transport_stats-ConnectedOnce s.base i
    send_step-ConnectedOnce (SendCall.updates_servers uris) s i =
        update_ice_servers-ConnectedOnce peer log lib logs uris s.base i
    send_step-ConnectedOnce (SendCall.restarts_ice ice) s i =
        restart_sending_ice-ConnectedOnce peer log lib logs ice s.base i
    send_step-ConnectedOnce (sends h264 track es options codec) s i =
        send_track-ConnectedOnce h264 track es options codec s i
    send_step-ConnectedOnce (stops_sending local_id) s i =
        stop_sending-ConnectedOnce peer log lib logs local_id s.base i
    send_step-ConnectedOnce (asks_sender local_id) s i =
        get_sender_stats-ConnectedOnce peer log lib logs local_id s.base i
    send_step-ConnectedOnce (replaces_track local_id track) s i =
        replace_track-ConnectedOnce peer log lib logs local_id track s.base i
    send_step-ConnectedOnce (sets_layer local_id layer) s i =
        set_layer-ConnectedOnce peer log lib logs local_id layer s.base i
    send_step-ConnectedOnce (sends_channel label init) s i =
        send_channel-ConnectedOnce peer log lib logs label init s.base i

    recv_step-ConnectedOnce : (c : RecvCall) (h : Handler P) → I h → I (recv_step c h)
    unfolding recv_step close
    recv_step-ConnectedOnce RecvCall.closes h i =
        same_log peer log h _ h.remote_sdp (logs.close h.pc) i
    recv_step-ConnectedOnce RecvCall.asks_stats h i = get_transport_stats-ConnectedOnce h i
    recv_step-ConnectedOnce (RecvCall.updates_servers uris) h i =
        update_ice_servers-ConnectedOnce peer log lib logs uris h i
    recv_step-ConnectedOnce (RecvCall.restarts_ice ice) h i =
        restart_receiving_ice-ConnectedOnce peer log lib logs ice h i
    recv_step-ConnectedOnce (receives id kind parameters) h i =
        receive_track-ConnectedOnce peer log lib logs id kind parameters h i
    recv_step-ConnectedOnce (stops_receiving local_id) h i =
        stop_receiving-ConnectedOnce peer log lib logs local_id h i
    recv_step-ConnectedOnce (asks_receiver local_id) h i =
        get_receiver_stats-ConnectedOnce peer log lib logs local_id h i
    recv_step-ConnectedOnce (receives_channel label config) h i =
        receive_channel-ConnectedOnce peer log lib logs label config h i

    -- On a SendHandler whose transport is ready if the latest call of OnConnect has returned and all
    -- before have thrown, and is not ready if all have thrown, that is so after any calls of its
    -- methods, each returning or throwing: the application connects at most once, is never asked again
    -- when it has, and the transport is ready exactly from then on. The peer connection calls OnConnect
    -- by itself at no time.
    pub send_run-ConnectedOnce :
        (cs : List (SendCall Y)) (s : SendHandler P)
        → ConnectedOnce peer log s.base
        → ConnectedOnce peer log (send_run cs s).base
    unfolding send_run
    send_run-ConnectedOnce [] s i = i
    send_run-ConnectedOnce (c ∷ cs) s i =
        send_run-ConnectedOnce cs (send_step c s) (send_step-ConnectedOnce c s i)

    -- On a RecvHandler whose transport is ready if the latest call of OnConnect has returned and all
    -- before have thrown, and is not ready if all have thrown, that is so after any calls of its
    -- methods, each returning or throwing. The peer connection calls OnConnect by itself at no time.
    pub recv_run-ConnectedOnce :
        (cs : List RecvCall) (h : Handler P)
        → ConnectedOnce peer log h
        → ConnectedOnce peer log (recv_run cs h)
    unfolding recv_run
    recv_run-ConnectedOnce [] h i = i
    recv_run-ConnectedOnce (c ∷ cs) h i =
        recv_run-ConnectedOnce cs (recv_step c h) (recv_step-ConnectedOnce c h i)
