-- ===== src/Handler/Once.antt =====
-- Send and the data channels of src/Handler.cpp connect the application at most once, and so does any
-- sequence of calls.
use libmediasouphandler.Base.{
  ℕ, ◌%◌, ◌^◌, String, Bool, true, false, Option, none, List, [], ◌∷◌, ◌∙◌, if-cases,
}
use libmediasouphandler.Base.Int.{pos}
use libmediasouphandler.Base.Result.{Result, ok, err}
use libmediasouphandler.Base.State.{Method, Keeps, Keeps-bind, Keeps-lift}
use libmediasouphandler.Json.{Json, obj, members, boolean, number_integer, iterate}
use libmediasouphandler.Ortc.Validate.Sctp.{validate_sctp_stream_parameters}
use libmediasouphandler.SendTransport.{DataChannelInit, stream_parameters}
use libmediasouphandler.Sdp.RemoteSdp.{
  get_next_media_section_idx, send, send_sctp_association, recv_sctp_association,
}
use libmediasouphandler.Handler.{Handler, on_pc, on_sdp, ensure_transport, update_ice_servers}
use libmediasouphandler.Handler.State.{uris_of}
use libmediasouphandler.Handler.Connection.{
  Peer, SdpTransform, offer, answer, RtpEncoding, ChannelConfig, Configuration,
}
use libmediasouphandler.Handler.Encodings.{media_at, complete_parameters}
use libmediasouphandler.Handler.Send.{
  local_sdp, undoing, created, answer_offer, try_offer, undo_transceiver, finish_send,
  send_prepared,
}
use libmediasouphandler.Handler.Recv.{offer_remote}
use libmediasouphandler.Handler.Channels.{
  application_of, send_section, send_channel, receive_section, receive_channel, parse_for_transport,
  unless_section,
}
use libmediasouphandler.Handler.Steps.{
  Steps, answer_offer-Keeps, offer_remote-Keeps, try_offer-Keeps,
}
use libmediasouphandler.Handler.Connect.{LogsConnects, ConnectedOnce, same_log}
use libmediasouphandler.Handler.Connected.{asks, calls, steps}

module _ {P D C Y Q : Type 0} (peer : Peer P D C Y Q) (log : P → List Bool) (lib : SdpTransform)
    (logs : LogsConnects peer log) where
  abbrev I : Handler P → Type 0
  I = ConnectedOnce peer log

  all_steps : Steps peer lib I
  all_steps = steps peer log lib logs

  undo-Keeps : (t : ℕ) (h : Handler P) → I h → I (undo_transceiver peer lib t h)
  unfolding undo_transceiver
  undo-Keeps t h i =
      same_log peer log h _ h.remote_sdp (logs.set_track _ none _ ∙ logs.set_inactive t h.pc) i

  undoing-Keeps :
      {A : Type 0} (t : ℕ) (out : Result A × Handler P)
      → I out.1
      → I (undoing (undo_transceiver peer lib t) (λ h. out) out.1).1
  undoing-Keeps t (ok a, h) i = i
  undoing-Keeps t (err e, h) i = undo-Keeps t h i

  finish_send-Keeps :
      (idx : ℕ) (reuse_mid : String) (es : List (RtpEncoding Y)) (options : Option Json)
      (remote : Json) (t : ℕ) (tried : String × Bool × Json)
      → Keeps I (finish_send peer lib idx reuse_mid es options remote t tried)
  unfolding finish_send
  finish_send-Keeps idx reuse_mid es options remote t (mid, svc, parameters) =
      asks peer log lib logs (local_sdp peer lib) _ λ local.
        Keeps-lift I (media_at idx local) _ λ media.
          Keeps-lift I (complete_parameters svc es media parameters) _ λ complete.
            Keeps-bind I (on_sdp (send lib.show_float media reuse_mid complete remote options)) _
              (λ h j. j)
              λ sent.
                Keeps-bind I (answer_offer peer lib) _ (answer_offer-Keeps peer lib I all_steps)
                  λ u h j. j

  pub send_prepared-ConnectedOnce :
      (track : ℕ) (es : List (RtpEncoding Y)) (options : Option Json) (parameters remote : Json)
      → Keeps I (send_prepared peer lib track es options parameters remote)
  unfolding send_prepared
  send_prepared-ConnectedOnce track es options parameters remote =
      asks peer log lib logs (λ h. get_next_media_section_idx h.remote_sdp) _
        λ next.
          Keeps-bind I (on_pc (peer.add_track track es)) _
            (calls peer log lib logs (peer.add_track track es) (logs.add_track track es))
            λ made. Keeps-lift I (created made) _ λ t.
              Keeps-bind I
                (undoing (undo_transceiver peer lib t) (try_offer peer lib next.0 es parameters t))
                _
                (λ h j.
                  undoing-Keeps t (try_offer peer lib next.0 es parameters t h)
                    (try_offer-Keeps peer lib I all_steps next.0 es parameters t h j))
                λ tried. finish_send-Keeps next.0 next.1 es options remote t tried

  unless_section-Keeps :
      (call : Method (Handler P) (Unit {0})) → Keeps I call → Keeps I (unless_section peer lib call)
  unless_section-Keeps call k h i =
      if-cases (λ (out : Result (Unit {0}) × Handler P). I out.1) h.has_data_channel_media_section
        (λ e. i) λ e. k h i

  send_section-Keeps : Keeps I (send_section peer lib)
  unfolding send_section
  send_section-Keeps =
      Keeps-bind I (on_pc (peer.create_offer false)) _
        (calls peer log lib logs (peer.create_offer false) (logs.create_offer false))
        λ text. Keeps-lift I (lib.parse text) _ λ local.
          asks peer log lib logs (λ h. get_next_media_section_idx h.remote_sdp) _
            λ idx. Keeps-lift I (application_of local) _ λ media.
              Keeps-bind I (ensure_transport peer lib "server" local) _
                (all_steps.ensured "server" local)
                λ u.
                  Keeps-bind I (on_pc (peer.set_local_description offer text)) _
                    (all_steps.local_set offer text)
                    λ v.
                      Keeps-bind I (on_sdp (send_sctp_association lib.show_float media)) _
                        (λ h j. j)
                        λ w.
                          Keeps-bind I (answer_offer peer lib) _
                            (answer_offer-Keeps peer lib I all_steps) λ x h j. j

  pub send_channel-ConnectedOnce :
      (label : String) (init : DataChannelInit) → Keeps I (send_channel peer lib label init)
  unfolding send_channel
  send_channel-ConnectedOnce label init h =
      Keeps-lift I
        (validate_sctp_stream_parameters
          (obj (stream_parameters (h.next_send_sctp_stream_id % 2 ^ 16) init)))
        _
        (λ parameters.
          let config : ChannelConfig = record {
            negotiated = true;
            id = pos (h.next_send_sctp_stream_id % 2 ^ 16);
            init = init;
          } in
          Keeps-bind I (on_pc (peer.create_data_channel label config)) _
            (calls peer log lib logs (peer.create_data_channel label config)
              (logs.create_data_channel label config))
            λ channel s j.
              Keeps-bind I (unless_section peer lib (send_section peer lib)) _
                (unless_section-Keeps (send_section peer lib) send_section-Keeps) (λ u t k. k) _ j)
        h

  -- Where the transport is not ready, the answer is parsed for it.
  parse_for_transport-Keeps : (text : String) → Keeps I (parse_for_transport peer lib text)
  parse_for_transport-Keeps text h i =
      if-cases (λ (out : Result (Unit {0}) × Handler P). I out.1) h.transport_ready (λ e. i)
        λ e. Keeps-lift I (lib.parse text) _ (λ local. all_steps.ensured "client" local) h i

  receive_section-Keeps : Keeps I (receive_section peer lib)
  unfolding receive_section
  receive_section-Keeps =
      Keeps-bind I (on_sdp (recv_sctp_association lib.show_float)) _ (λ h j. j)
        λ u. Keeps-bind I (offer_remote peer lib) _ (offer_remote-Keeps peer lib I all_steps) λ v.
          Keeps-bind I (on_pc peer.create_answer) _ all_steps.answered λ text.
            Keeps-bind I (parse_for_transport peer lib text) _ (parse_for_transport-Keeps text) λ w.
              Keeps-bind I (on_pc (peer.set_local_description answer text)) _
                (all_steps.local_set answer text) λ x h j. j

  pub receive_channel-ConnectedOnce :
      (label : String) (config : ChannelConfig) → Keeps I (receive_channel peer lib label config)
  unfolding receive_channel
  receive_channel-ConnectedOnce label config =
      Keeps-lift I
        (validate_sctp_stream_parameters (
          obj (
            members (
              ("streamId", number_integer config.id)
              ∷ ("ordered", boolean config.init.ordered)
              ∷ []))))
        _
        λ parameters.
          Keeps-bind I
            (on_pc (peer.create_data_channel label (record config { negotiated = true }))) _
            (calls peer log lib logs
              (peer.create_data_channel label (record config { negotiated = true }))
              (logs.create_data_channel label (record config { negotiated = true })))
            λ channel.
              Keeps-bind I (unless_section peer lib (receive_section peer lib)) _
                (unless_section-Keeps (receive_section peer lib) receive_section-Keeps) λ u t k. k

  pub update_ice_servers-ConnectedOnce : (uris : Json) → Keeps I (update_ice_servers peer lib uris)
  unfolding update_ice_servers
  update_ice_servers-ConnectedOnce uris h =
      Keeps-lift I (uris_of (iterate uris)) _
        (λ servers.
          let c : Configuration C = record (peer.get_configuration h.pc) { servers = servers } in
          Keeps-bind I (on_pc (peer.set_configuration c)) _
            (calls peer log lib logs (peer.set_configuration c) (logs.set_configuration c))
            λ set s j. j)
        h
