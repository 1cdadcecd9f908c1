-- ===== src/Transport.antt =====
-- The classes Transport, SendTransport and RecvTransport of src/Transport.cpp, over the operations of
-- their handlers (src/Handler.cpp), which are an interface. SendTransport has ProduceData.
pub mod Handlers
pub mod Create
pub mod Closed
pub mod Produced
pub mod Probator
use libmediasouphandler.Base.{
  ℕ, String, Bool, true, false, not, ◌&&◌, ◌||◌, Option, none, some, List, [], ◌∷◌, ◌==◌,
  if◌then◌else◌,
}
use libmediasouphandler.Base.Text.{is_empty}
use libmediasouphandler.Base.Result.{
  Error, Result, ok, err, error, type_error, unsupported_error, invalid_state_error, json_error,
  std_error, undefined,
}
use libmediasouphandler.Base.State.{Method, ◌>>=◌, ◌>>◌, lift, pure, throw, read, modify, guard}
use libmediasouphandler.Json.{Json, is_object}
use libmediasouphandler.Track.{Tracks}
use libmediasouphandler.Ortc.Validate.Params.{validate_rtp_parameters}
use libmediasouphandler.Ortc.Validate.Options.{validate_producer_codec_options}
use libmediasouphandler.Ortc.Receive.{can_receive, generate_probator_rtp_parameters}
use libmediasouphandler.Transport.Handlers.{
  HandlerOps, SendOps, RecvOps, SendResult, Encoding, DataChannelRequest,
}

-- What both kinds keep; `handler` is the object that Handler's methods change.
pub record Transport (H : Type 0) : Type 0 where
  pub closed : Bool
  pub connection_state : String
  pub has_sctp_parameters : Bool
  pub max_sctp_message_size : ℕ
  pub probator_consumer_created : Bool
  pub handler : H

module _ {H : Type 0} where
  -- A call of the handler.
  abbrev pub on_handler : {A : Type 0} → Method H A → Method (Transport H) A
  on_handler call t = let (r, h) = call t.handler in (r, record t { handler = h })

  abbrev pub unless_closed : String → Method (Transport H) (Unit {0})
  unless_closed message t = if t.closed then (err (invalid_state_error message), t) else (ok tt, t)

module _ {H : Type 0} (ops : HandlerOps H) where
  unfoldable pub close : Method (Transport H) (Unit {0})
  close t =
      if t.closed
      then (ok tt, t)
      else (ok tt, record t { closed = true; handler = ops.close t.handler })

  unfoldable pub get_stats : Method (Transport H) Json
  get_stats = do unless_closed "Transport closed"; on_handler ops.get_transport_stats

  unfoldable pub restart_ice : Json → Method (Transport H) (Unit {0})
  restart_ice ice = do unless_closed "Transport closed"; on_handler (ops.restart_ice ice)

  unfoldable pub update_ice_servers : Json → Method (Transport H) (Unit {0})
  update_ice_servers servers = do
    unless_closed "Transport closed"
    on_handler (ops.update_ice_servers servers)

-- The listener's answer to OnConnect is a parameter.
unfoldable pub on_connect :
    {H : Type 0} → (Json → Result (Unit {0})) → Json → Method (Transport H) (Unit {0})
on_connect listener dtls = do unless_closed "Transport closed"; lift (listener dtls)

unfoldable pub on_connection_state_change : {H : Type 0} → String → Method (Transport H) (Unit {0})
on_connection_state_change state = modify (λ t. record t { connection_state = state })

-- Exceptions of the program's own classes; all of them are std::runtime_error.
abbrev pub is_client_error : Error → Bool
is_client_error (error s) = true
is_client_error (type_error s) = true
is_client_error (unsupported_error s) = true
is_client_error (invalid_state_error s) = true
is_client_error _ = false

abbrev pub is_runtime_error : Error → Bool
is_runtime_error (std_error name) = name == "runtime_error"
is_runtime_error (error s) = true
is_runtime_error (type_error s) = true
is_runtime_error (unsupported_error s) = true
is_runtime_error (invalid_state_error s) = true
is_runtime_error _ = false

abbrev pub present_track : Option ℕ → Result ℕ
present_track none = err (type_error "missing track")
present_track (some track) = ok track

abbrev as_given : Result Json → Result (Option Json)
as_given (ok options) = ok (some options)
as_given (err e) = err e

unfoldable pub valid_options : Option Json → Result (Option Json)
valid_options none = ok none
valid_options (some options) = as_given (validate_producer_codec_options options)

module _ {H F X : Type 0} (fresh : X) (ops : SendOps H (Encoding F X)) where
  -- A fresh encoding with six fields copied.
  abbrev pub normalize : Encoding F X → Encoding F X
  normalize e = record e { others = fresh }

  abbrev pub normalize_all : List (Encoding F X) → List (Encoding F X)
  normalize_all [] = []
  normalize_all (e ∷ es) = normalize e ∷ normalize_all es

  abbrev pub settle : SendResult → Result Json → Method (Transport H) SendResult
  settle result (ok parameters) = pure (record result { rtp_parameters = parameters })
  settle result (err e) =
      if is_client_error e
      then on_handler (ops.stop_sending result.local_id) >> throw e
      else throw e

  -- `can_produce` tells the keys of canProduceByKind.
  unfoldable pub produce :
      Tracks
      → (String → Bool)
      → Option ℕ
      → List (Encoding F X)
      → Option Json
      → Option Json
      → Method (Transport H) SendResult
  unfolding valid_options
  produce tracks can_produce track encodings options codec = do
    unless_closed "SendTransport closed"
    t ← lift (present_track track)
    guard (not (tracks.ended t)) (invalid_state_error "track ended")
    guard (can_produce (tracks.kind t)) (unsupported_error "cannot produce track kind")
    options' ← lift (valid_options options)
    result ← on_handler (ops.send t (normalize_all encodings) options' codec)
    settle result (validate_rtp_parameters result.rtp_parameters)

  -- SendTransport::Close.
  unfoldable pub close_send : Method (Transport H) (Unit {0})
  unfolding close
  close_send t = if t.closed then (ok tt, t) else close ops.base t

  unfoldable pub close_producer : String → Method (Transport H) (Unit {0})
  close_producer local_id t =
      if t.closed then (ok tt, t) else on_handler (ops.stop_sending local_id) t

  -- ReplaceTrack and SetMaxSpatialLayer do not ask whether the transport is closed.
  unfoldable pub replace_track : String → Option ℕ → Method (Transport H) (Unit {0})
  replace_track local_id track = on_handler (ops.replace_track local_id track)

  unfoldable pub set_max_layer : String → ℕ → Method (Transport H) (Unit {0})
  set_max_layer local_id layer = on_handler (ops.set_layer local_id layer)

  unfoldable pub get_producer_stats : String → Method (Transport H) Json
  get_producer_stats local_id = do
    unless_closed "SendTransport closed"
    on_handler (ops.get_sender_stats local_id)

abbrev pub present_parameters : Option Json → Result Json
present_parameters none = err (type_error "missing rtpParameters")
present_parameters (some parameters) = ok parameters

-- A try block of which a runtime_error is only logged.
abbrev pub caught : {S : Type 0} → Method S (Unit {0}) → Method S (Unit {0})
caught call s =
    let (r, s') = call s in
    elim r [ ok u ↦ (ok tt, s') | err e ↦ if is_runtime_error e then (ok tt, s') else (err e, s') ]

module _ {H R D : Type 0} (ops : RecvOps H R D) where
  -- The consumer for RTP probation.
  unfoldable pub create_probator : String → Json → Method (Transport H) (Unit {0})
  create_probator kind parameters = do
    probator ← lift (generate_probator_rtp_parameters parameters)
    unused ← on_handler (ops.receive "probator" kind probator)
    modify (λ t. record t { probator_consumer_created = true })

  unfoldable pub ensure_probator : String → Json → Method (Transport H) (Unit {0})
  unfolding create_probator
  ensure_probator kind parameters t =
      if not t.probator_consumer_created && kind == "video"
      then caught (create_probator kind parameters) t
      else (ok tt, t)

  -- What the handler gave, and the RTP parameters with their defaults, which are the caller's.
  unfoldable pub consume :
      Json → String → String → String → Option Json → Json → Method (Transport H) (R × Json)
  unfolding ensure_probator
  consume extended id producer_id kind parameters app_data = do
    unless_closed "RecvTransport closed"
    guard (not (is_empty id)) (type_error "missing id")
    guard (not (is_empty producer_id)) (type_error "missing producerId")
    guard (kind == "audio" || kind == "video") (type_error "invalid kind")
    given ← lift (present_parameters parameters)
    guard (is_object app_data) (type_error "appData must be a JSON object")
    (receivable, valid) ← lift (can_receive given extended)
    guard receivable (unsupported_error "cannot consume this Producer")
    result ← on_handler (ops.receive id kind valid)
    ensure_probator kind valid
    pure (result, valid)

  unfoldable pub consume_data : String → String → ℕ → String → String → Method (Transport H) D
  consume_data id producer_id stream_id label protocol = do
    unless_closed "RecvTransport closed"
    guard (not (is_empty id)) (type_error "missing id")
    guard (not (is_empty producer_id)) (type_error "missing producerId")
    sctp ← read (λ t. t.has_sctp_parameters)
    guard sctp
        (type_error "Cannot use DataChannels with this transport. SctpParameters are not set.")
    on_handler (ops.receive_data_channel label (record { protocol = protocol; id = stream_id }))

  -- RecvTransport::Close.
  unfoldable pub close_recv : Method (Transport H) (Unit {0})
  unfolding close
  close_recv t = if t.closed then (ok tt, t) else close ops.base t

  unfoldable pub close_consumer : String → Method (Transport H) (Unit {0})
  close_consumer local_id t =
      if t.closed then (ok tt, t) else on_handler (ops.stop_receiving local_id) t

  unfoldable pub get_consumer_stats : String → Method (Transport H) Json
  get_consumer_stats local_id = do
    unless_closed "RecvTransport closed"
    on_handler (ops.get_receiver_stats local_id)
