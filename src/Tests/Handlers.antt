-- ===== src/Tests/Handlers.antt =====
-- A small peer connection, and the handlers on it.
use libmediasouphandler.Base.{
  String, ◌+◌, ◌%◌, ◌&&◌, ◌||◌, not, arith, ℕ, Bool, true, false, none, some, List, [], ◌∷◌, ◌≡◌,
  refl,
}
use libmediasouphandler.Base.Result.{Result, ok, err, error}
use libmediasouphandler.Json.{Json, null, number_unsigned, str, array, object}
use libmediasouphandler.Sdp.RemoteSdp.Store.{lookup, element_at}
use libmediasouphandler.Handler.State.{Handler}
use libmediasouphandler.Handler.{transceiver_of}
use libmediasouphandler.Handler.Connection.{Peer, SdpTransform, RtpEncoding, SenderParameters}
use libmediasouphandler.Handler.Senders.{set_max_spatial_layer, edit_layers, set_layer_of}
use libmediasouphandler.Handler.Connect.{LogsConnects, ConnectedOnce, returned}
use libmediasouphandler.Handler.Runs.{
  SendCall, RecvCall, stops_sending, sends_channel, receives, send_run, recv_run,
  send_run-ConnectedOnce, recv_run-ConnectedOnce,
}
use libmediasouphandler.Handler.Layers.{layered, mapped, set_layer_activates}
use libmediasouphandler.SendTransport.{DataChannelInit, is_zero, num_streams}
use libmediasouphandler.SendTransport.Limits.{returned as has_returned}
use libmediasouphandler.Base.Int.{pos}
use libmediasouphandler.Handler.Send.{SendHandler}
use libmediasouphandler.Handler.Channels.{produce_data}
use libmediasouphandler.Handler.StreamIds.{after_sends, made, ids_follow_channels}
use libmediasouphandler.Handler.DataLimits.{is_settled, asked_init, produce_data_iff}
use libmediasouphandler.Tests.Sdp.{show_float, ice, consumed, start}

-- The log of the application's answers, and the parameters of the one sender; the application refuses
-- the first time.
pub record Toy : Type 0 where
  pub log : List Bool
  pub parameters : SenderParameters (Unit {0}) (Unit {0})

abbrev pub answers : List Bool → Result (Unit {0})
answers [] = err (error "not yet")
answers (b ∷ bs) = ok tt

abbrev pub audio_section : Json
audio_section = object (
    ("mid", str "0")
    ∷ ("type", str "audio")
    ∷ ("rtp", array (object (("payload", number_unsigned 111) ∷ []) ∷ []))
    ∷ [])

abbrev application_section : Json
application_section = object (("mid", str "1") ∷ ("type", str "application") ∷ [])

abbrev pub session : Json
session = object (
    ("fingerprint", object (("type", str "sha-256") ∷ ("hash", str "BB") ∷ []))
    ∷ ("media", array (audio_section ∷ application_section ∷ []))
    ∷ [])

abbrev pub peer : Peer Toy ℕ (Unit {0}) (Unit {0}) (Unit {0})
peer = record {
  close = λ p. p;
  get_stats = λ p. (ok null, p);
  get_sender_stats = λ s p. (ok null, p);
  get_receiver_stats = λ r p. (ok null, p);
  get_configuration = λ p. record { servers = []; others = tt };
  set_configuration = λ c p. (ok true, p);
  track_kind = λ p t. "audio";
  add_media = λ kind p. p;
  add_track = λ t es p. (ok (some 0), p);
  create_offer = λ b p. (ok "offer", p);
  create_answer = λ p. (ok "answer", p);
  set_local_description = λ t text p. (ok tt, p);
  set_remote_description = λ t text p. (ok tt, p);
  get_local_description = λ p. ok "local";
  get_transceivers = λ p. 0 ∷ [];
  remove_track = λ s p. p;
  mid = λ p t. some "0";
  sender = λ t. t;
  receiver = λ t. t;
  set_inactive = λ t p. p;
  set_track = λ s t p. p;
  get_parameters = λ p s. p.parameters;
  set_parameters = λ s q p. (none, record p { parameters = q });
  receiver_track = λ r. r;
  create_data_channel = λ label c p. (ok 5, p);
  on_connect = λ d p. (answers p.log, record p { log = returned (answers p.log) ∷ p.log });
}

abbrev pub lib : SdpTransform
lib = record {
  parse = λ text. ok session;
  write = λ j. "sdp";
  parse_params = λ text. ok (object []);
  show_float = show_float;
}

abbrev pub layer : Bool → RtpEncoding (Unit {0})
layer b = record {
  active = b;
  max_bitrate_bps = none;
  max_framerate = none;
  scale_resolution_down_by = none;
  network_priority = 1;
  scalability_mode = none;
  others = record { rid = ""; rest = tt };
}

abbrev pub toy : Toy
toy = record {
  log = [];
  parameters = record { encodings = layer false ∷ layer true ∷ layer true ∷ []; others = tt };
}

abbrev pub handler : Handler Toy
handler = record {
  pc = toy;
  remote_sdp = start;
  transport_ready = false;
  map_mid_transceiver = [];
  has_data_channel_media_section = false;
  next_send_sctp_stream_id = 0;
  forced_local_dtls_role = "";
}

logs : LogsConnects peer (λ p. p.log)
logs = record {
  on_connect = λ d p. refl;
  get_stats = λ p. refl;
  get_sender_stats = λ s p. refl;
  get_receiver_stats = λ r p. refl;
  set_configuration = λ c p. refl;
  add_track = λ t es p. refl;
  create_offer = λ b p. refl;
  create_answer = λ p. refl;
  set_local_description = λ t text p. refl;
  set_remote_description = λ t text p. refl;
  remove_track = λ s p. refl;
  set_inactive = λ t p. refl;
  set_track = λ s t p. refl;
  set_parameters = λ s q p. refl;
  create_data_channel = λ label c p. refl;
  close = λ p. refl;
}

abbrev pub with_track : Handler Toy
with_track = record handler { map_mid_transceiver = ("0", 0) ∷ [] }

set_run : (set_max_spatial_layer peer lib "0" 2 with_track).0 ≡ ok tt
unfolding set_max_spatial_layer set_layer_of transceiver_of edit_layers lookup
set_run = refl

set_layer_activates_example :
    let h' = (set_max_spatial_layer peer lib "0" 2 with_track).1 in
    ((i : ℕ)
      → element_at i h'.pc.parameters.encodings
        ≡ mapped (layered 2 i) (element_at i toy.parameters.encodings))
    × (h'.pc.parameters.others ≡ tt)
    × (h'.map_mid_transceiver ≡ with_track.map_mid_transceiver)
    × (h'.remote_sdp ≡ start)
unfolding lookup
set_layer_activates_example =
    set_layer_activates peer lib "0" 2 0 with_track (λ p s q e. refl) refl set_run

abbrev unordered : DataChannelInit
unordered = record {
  protocol = "";
  ordered = false;
  max_retransmits = none;
  max_retransmit_time = none;
}

abbrev with_section : Handler Toy
with_section = record handler {
  has_data_channel_media_section = true;
  next_send_sctp_stream_id = 1023;
}

-- The application refuses the first time that a data channel is sent, and connects the second time.
abbrev pub sender : SendHandler Toy
sender = record {
  base = with_track;
  sending_rtp_parameters_by_kind = null;
  sending_remote_rtp_parameters_by_kind = null;
}

abbrev pub sent_calls : List (SendCall (Unit {0}))
sent_calls = sends_channel "l" unordered ∷ sends_channel "l" unordered ∷ stops_sending "0" ∷ []

send_run-ConnectedOnce_example :
    ConnectedOnce peer (λ p. p.log) (send_run peer lib sent_calls sender).base
send_run-ConnectedOnce_example =
    send_run-ConnectedOnce peer lib (λ p. p.log) logs sent_calls sender tt

abbrev limited : DataChannelInit
limited = record {
  protocol = "";
  ordered = true;
  max_retransmits = some (pos 3);
  max_retransmit_time = none;
}

-- The second channel is refused, since it is ordered and has a limit.
abbrev asked : List (String × DataChannelInit)
asked = ("a", unordered) ∷ ("b", limited) ∷ ("c", unordered) ∷ []

ids_follow_channels_example :
    (after_sends peer lib asked with_section).next_send_sctp_stream_id
    ≡ (1023 + made peer lib asked with_section) % num_streams
ids_follow_channels_example = ids_follow_channels peer lib asked with_section (omega arith)

produce_data_iff_example :
    has_returned (produce_data peer lib true "l" "chat" false (pos 3) (pos 0) with_section).0 ≡ (
      (is_zero (pos 0) && (is_zero (pos 3) || not false))
      && is_settled peer lib "l" (asked_init "chat" false (pos 3) (pos 0)) with_section)
produce_data_iff_example = produce_data_iff peer lib "l" "chat" false (pos 3) (pos 0) with_section

abbrev received_calls : List RecvCall
received_calls =
    receives "t" "audio" consumed ∷ receives "t" "audio" consumed ∷ RecvCall.restarts_ice ice ∷ []

recv_run-ConnectedOnce_example :
    ConnectedOnce peer (λ p. p.log) (recv_run peer lib received_calls handler)
recv_run-ConnectedOnce_example =
    recv_run-ConnectedOnce peer lib (λ p. p.log) logs received_calls handler tt
