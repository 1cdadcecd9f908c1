-- ===== src/Handler/Connected.antt =====
-- Every method of the handlers of src/Handler.cpp connects the application at most once.
use libmediasouphandler.Base.{
  ℕ, String, Bool, true, false, Option, none, List, ◌∙◌, if-cases, if◌then◌else◌,
}
use libmediasouphandler.Base.Result.{Result}
use libmediasouphandler.Base.State.{Method, ◌>>=◌, pure, Keeps, Keeps-bind, Keeps-lift}
use libmediasouphandler.Json.{Json, find}
use libmediasouphandler.Sdp.RemoteSdp.{receive, close_media_section, update_ice_parameters}
use libmediasouphandler.Handler.{
  Handler, on_pc, change_pc, on_sdp, ask, present_mid, transceiver_of,
}
use libmediasouphandler.Handler.Connection.{Peer, SdpTransform}
use libmediasouphandler.Handler.Send.{offer_again}
use libmediasouphandler.Handler.Senders.{
  close_sending, stop_transceiver, set_layer_of, stop_sending, replace_track, set_max_spatial_layer,
  get_sender_stats, restart_sending_ice,
}
use libmediasouphandler.Handler.Answer.{cname_of}
use libmediasouphandler.Handler.Recv.{
  local_id_of, with_mid, answer_again, negotiate_receive, receive_track, receive_as,
  note_transceiver, note_received, stop_receiving_of, close_receiving, stop_receiving,
  get_receiver_stats, restart_receiving_ice,
}
use libmediasouphandler.Handler.Steps.{
  Steps, offer_again-Keeps, answer_again-Keeps, negotiate_receive-Keeps,
}
use libmediasouphandler.Handler.Connect.{
  LogsConnects, Quiet, ConnectedOnce, same_log, on_pc-ConnectedOnce, steps-ConnectedOnce,
}

module _ {P D C Y Q : Type 0} (peer : Peer P D C Y Q) (log : P → List Bool) (lib : SdpTransform)
    (logs : LogsConnects peer log) where
  abbrev I : Handler P → Type 0
  I = ConnectedOnce peer log

  pub steps : Steps peer lib I
  steps = steps-ConnectedOnce peer log lib logs

  -- A method that begins with a look at the handler, or a transceiver's.
  pub asks :
      {A B : Type 0} (f : Handler P → Result A) (rest : A → Method (Handler P) B)
      → ((a : A) → Keeps I (rest a))
      → Keeps I (ask f >>= rest)
  asks f rest k = Keeps-bind I (ask f) rest (λ h i. i) k

  finds :
      {B : Type 0} (local_id : String) (rest : ℕ → Method (Handler P) B)
      → ((t : ℕ) → Keeps I (rest t))
      → Keeps I (transceiver_of local_id >>= rest)
  unfolding transceiver_of
  finds local_id rest k = Keeps-bind I (transceiver_of local_id) rest (λ h i. i) k

  pub calls : {A : Type 0} (call : Method P A) → Quiet peer log call → Keeps I (on_pc call)
  calls call q = on_pc-ConnectedOnce peer log call q

  stop_transceiver-Keeps : (t : ℕ) → Keeps I (stop_transceiver peer lib t)
  unfolding stop_transceiver close_sending
  stop_transceiver-Keeps t h i =
      asks (λ s. present_mid (peer.mid s.pc t)) (close_sending peer lib)
        (λ mid.
          Keeps-bind I (on_sdp (close_media_section mid)) (λ u. offer_again peer lib false)
            (λ s j. j) λ u. offer_again-Keeps peer lib I steps false)
        (record h {
          pc = peer.remove_track (peer.sender t) (peer.set_track (peer.sender t) none h.pc);
        })
        (same_log peer log h _ h.remote_sdp (logs.remove_track _ _ ∙ logs.set_track _ none h.pc) i)

  pub stop_sending-ConnectedOnce : (local_id : String) → Keeps I (stop_sending peer lib local_id)
  unfolding stop_sending
  stop_sending-ConnectedOnce local_id =
      finds local_id (stop_transceiver peer lib) stop_transceiver-Keeps

  pub replace_track-ConnectedOnce :
      (local_id : String) (track : Option ℕ) → Keeps I (replace_track peer lib local_id track)
  unfolding replace_track
  replace_track-ConnectedOnce local_id track =
      finds local_id (λ t. change_pc (peer.set_track (peer.sender t) track))
        λ t h i. same_log peer log h _ h.remote_sdp (logs.set_track (peer.sender t) track h.pc) i

  pub set_layer-ConnectedOnce :
      (local_id : String) (layer : ℕ) → Keeps I (set_max_spatial_layer peer lib local_id layer)
  unfolding set_max_spatial_layer set_layer_of
  set_layer-ConnectedOnce local_id layer =
      finds local_id (set_layer_of peer lib layer)
        λ t h i. same_log peer log h _ h.remote_sdp (logs.set_parameters (peer.sender t) _ h.pc) i

  pub get_sender_stats-ConnectedOnce :
      (local_id : String) → Keeps I (get_sender_stats peer lib local_id)
  unfolding get_sender_stats
  get_sender_stats-ConnectedOnce local_id =
      finds local_id (λ t. on_pc (peer.get_sender_stats (peer.sender t)))
        λ t. calls (peer.get_sender_stats (peer.sender t)) (logs.get_sender_stats (peer.sender t))

  pub get_receiver_stats-ConnectedOnce :
      (local_id : String) → Keeps I (get_receiver_stats peer lib local_id)
  unfolding get_receiver_stats
  get_receiver_stats-ConnectedOnce local_id =
      finds local_id (λ t. on_pc (peer.get_receiver_stats (peer.receiver t)))
        λ t.
          calls (peer.get_receiver_stats (peer.receiver t))
            (logs.get_receiver_stats (peer.receiver t))

  restarted :
      (ice : Json) (again : Method (Handler P) (Unit {0}))
      → Keeps I again
      → Keeps I (
          on_sdp (update_ice_parameters ice) >>= λ u h.
          (if h.transport_ready then again else pure tt) h)
  restarted ice again k =
      Keeps-bind I (on_sdp (update_ice_parameters ice))
        (λ u h. (if h.transport_ready then again else pure tt) h) (λ s j. j)
        λ u h i.
          if-cases (λ (call : Method (Handler P) (Unit {0})). I (call h).1) h.transport_ready
            (λ e. k h i) λ e. i

  pub restart_sending_ice-ConnectedOnce : (ice : Json) → Keeps I (restart_sending_ice peer lib ice)
  unfolding restart_sending_ice
  restart_sending_ice-ConnectedOnce ice =
      restarted ice (offer_again peer lib true) (offer_again-Keeps peer lib I steps true)

  pub restart_receiving_ice-ConnectedOnce :
      (ice : Json) → Keeps I (restart_receiving_ice peer lib ice)
  unfolding restart_receiving_ice
  restart_receiving_ice-ConnectedOnce ice =
      restarted ice (answer_again peer lib) (answer_again-Keeps peer lib I steps)

  pub receive_track-ConnectedOnce :
      (id kind : String) (parameters : Json) → Keeps I (receive_track peer lib id kind parameters)
  unfolding receive_track receive_as note_received note_transceiver
  receive_track-ConnectedOnce id kind parameters h =
      let local_id = local_id_of (find "mid" parameters) h.map_mid_transceiver in
      Keeps-lift I (cname_of parameters) _
        (λ cname.
          Keeps-bind I (on_sdp (receive lib.show_float local_id kind parameters cname id)) _
            (λ s j. j)
            λ u.
              Keeps-bind I (negotiate_receive peer lib local_id parameters)
                (λ v. note_received peer lib local_id)
                (negotiate_receive-Keeps peer lib I steps local_id parameters)
                λ v.
                  Keeps-bind I
                    (ask (λ s. with_mid (peer.mid s.pc) local_id (peer.get_transceivers s.pc))) _
                    (λ s j. j) λ t s j. j)
        h

  pub stop_receiving-ConnectedOnce :
      (local_id : String) → Keeps I (stop_receiving peer lib local_id)
  unfolding stop_receiving stop_receiving_of close_receiving
  stop_receiving-ConnectedOnce local_id = finds local_id (stop_receiving_of peer lib) λ t.
      asks (λ s. present_mid (peer.mid s.pc t)) (close_receiving peer lib)
        λ mid.
          Keeps-bind I (on_sdp (close_media_section mid)) (λ u. answer_again peer lib) (λ s j. j)
            λ u. answer_again-Keeps peer lib I steps
