-- ===== src/Tests/Transports.antt =====
-- Transports over handlers that keep the local ids of what they have made.
use libmediasouphandler.Base.{
  ℕ, String, true, false, Option, none, some, List, [], ◌∷◌, ◌≡◌, refl, ◌⊎◌,
}
use libmediasouphandler.Base.Result.{ok, type_error}
use libmediasouphandler.Json.{Json, null, object}
use libmediasouphandler.Track.{Tracks}
use libmediasouphandler.Ortc.Rule.{validate}
use libmediasouphandler.Ortc.Validate.Params.{validate_rtp_parameters}
use libmediasouphandler.Transport.{Transport, produce, valid_options, close_send, consume}
use libmediasouphandler.Transport.Handlers.{HandlerOps, SendOps, RecvOps, Encoding}
use libmediasouphandler.Transport.Produced.{Undone, produce_undoes}
use libmediasouphandler.Transport.Probator.{Logged, ProbatorOnce, consume-ProbatorOnce}
use libmediasouphandler.Transport.Closed.{SendCall, send_run, send_run-close_send}

abbrev Ids : Type 0
Ids = List String

abbrev base : HandlerOps Ids
base = record {
  close = λ h. [];
  get_transport_stats = λ h. (ok null, h);
  restart_ice = λ ice h. (ok tt, h);
  update_ice_servers = λ servers h. (ok tt, h);
}

abbrev without_first : Ids → Ids
without_first [] = []
without_first (x ∷ xs) = xs

abbrev Plain : Type 0
Plain = Encoding ℕ (Unit {0})

-- A handler whose RTP parameters are not valid.
abbrev send_ops : SendOps Ids Plain
send_ops = record {
  base = base;
  send = λ track encodings options codec h.
      (ok (record { local_id = "0"; rtp_sender = track; rtp_parameters = null }), "0" ∷ h);
  stop_sending = λ local_id h. (ok tt, without_first h);
  replace_track = λ local_id track h. (ok tt, h);
  set_layer = λ local_id layer h. (ok tt, h);
  get_sender_stats = λ local_id h. (ok null, h);
}

abbrev recv_ops : RecvOps Ids (Unit {0}) (Unit {0})
recv_ops = record {
  base = base;
  receive = λ id kind parameters h. (ok tt, id ∷ h);
  stop_receiving = λ local_id h. (ok tt, without_first h);
  get_receiver_stats = λ local_id h. (ok null, h);
  receive_data_channel = λ label request h. (ok tt, h);
}

recv_ops-Logged : Logged recv_ops (λ h. h)
recv_ops-Logged = record { receives = λ id kind parameters h. refl }

abbrev open_transport : Transport Ids
open_transport = record {
  closed = false;
  connection_state = "new";
  has_sctp_parameters = true;
  max_sctp_message_size = 0;
  probator_consumer_created = false;
  handler = "7" ∷ [];
}

abbrev live_tracks : Tracks
live_tracks = record { kind = λ t. "video"; ended = λ t. false; enabled = λ t. true }

produce_undoes_example :
    let out = produce tt send_ops live_tracks (λ kind. true) (some 3) [] none none open_transport in
    (out.1 ≡ open_transport)
    ⊎ (n : ℕ) × (options : Option Json) × (some 3 ≡ some n)
      × (valid_options none ≡ ok options)
      × Undone tt send_ops n [] options none
          (type_error "params is not an object")
          open_transport.handler
          out.1.handler
unfolding produce valid_options validate_rtp_parameters validate
produce_undoes_example =
    produce_undoes tt send_ops live_tracks (λ kind. true) (some 3) [] none none open_transport
      (type_error "params is not an object") refl refl

consume-ProbatorOnce_example :
    ProbatorOnce recv_ops
      (λ h. h)
      (consume recv_ops null "c1" "p1" "video" (some null) (object []) open_transport).1
consume-ProbatorOnce_example =
    consume-ProbatorOnce recv_ops (λ h. h) null "c1" "p1" "video" (some null) (object [])
      open_transport recv_ops-Logged refl refl

send_run-close_send_example :
    send_run tt send_ops
      (SendCall.produces live_tracks (λ kind. true) (some 3) [] none none ∷ SendCall.closes ∷ [])
      (close_send tt send_ops open_transport).1
    ≡ (close_send tt send_ops open_transport).1
send_run-close_send_example =
    send_run-close_send tt send_ops
      (SendCall.produces live_tracks (λ kind. true) (some 3) [] none none ∷ SendCall.closes ∷ [])
      open_transport
