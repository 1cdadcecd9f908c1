-- ===== src/DataChannel.antt =====
-- src/DataProducer.cpp and src/DataConsumer.cpp, the two ends of a data channel. The channel is
-- WebRTC's: how often it was asked to close is kept, and its state comes from outside.
pub mod Once
use libmediasouphandler.Base.{ℕ, suc, String, Bool, true, false, List, [], ◌∷◌, if◌then◌else◌}
use libmediasouphandler.Json.{Json}

-- webrtc::DataChannelInterface::DataState.
pub data DataState : Type 0 where
  connecting open_state closing closed_state : DataState

-- What the listeners are told: the private one of Close, the application of the rest.
pub data Event : Type 0 where
  closed transport_closed on_connecting on_open on_closing on_close : Event
  on_message on_buffered_amount : ℕ → Event

-- A data producer or a data consumer; `close_calls` is how often it has called the channel's Close.
pub record Endpoint : Type 0 where
  pub id : String
  pub sctp_stream_parameters : Json
  pub app_data : Json
  pub is_closed : Bool
  pub close_calls : ℕ
  pub told : List Event

abbrev tell : Event → Endpoint → Endpoint
tell e d = record d { told = e ∷ d.told }

-- Close and TransportClosed are the same in both classes.
unfoldable pub close : Endpoint → Endpoint
close d =
    if d.is_closed
    then d
    else record d { is_closed = true; close_calls = suc d.close_calls; told = closed ∷ d.told }

unfoldable pub transport_close : Endpoint → Endpoint
transport_close d = if d.is_closed then d else record d {
  is_closed = true;
  close_calls = suc d.close_calls;
  told = transport_closed ∷ d.told;
}

-- The channel's new state; only an open and a closed channel are told of.
unfoldable pub producer_state_change : DataState → Endpoint → Endpoint
producer_state_change connecting d = d
producer_state_change open_state d = tell on_open d
producer_state_change closing d = d
producer_state_change closed_state d = tell on_close d

-- A message, by its size: a producer gets none.
unfoldable pub producer_message : ℕ → Endpoint → Endpoint
producer_message n d = d

unfoldable pub producer_buffered_amount : ℕ → Endpoint → Endpoint
producer_buffered_amount n d = tell (on_buffered_amount n) d

unfoldable pub consumer_state_change : DataState → Endpoint → Endpoint
consumer_state_change connecting d = tell on_connecting d
consumer_state_change open_state d = tell on_open d
consumer_state_change closing d = tell on_closing d
consumer_state_change closed_state d = tell on_close d

unfoldable pub consumer_message : ℕ → Endpoint → Endpoint
consumer_message n d = tell (on_message n) d

unfoldable pub consumer_buffered_amount : ℕ → Endpoint → Endpoint
consumer_buffered_amount n d = d

-- What may happen to an endpoint; the Boolean says whether it is a producer.
pub data Happening : Type 0 where
  closes transport_closes : Happening
  changes_state : DataState → Happening
  messages buffers : ℕ → Happening

unfoldable pub step : Bool → Endpoint → Happening → Endpoint
step b d closes = close d
step b d transport_closes = transport_close d
step true d (changes_state s) = producer_state_change s d
step false d (changes_state s) = consumer_state_change s d
step true d (messages n) = producer_message n d
step false d (messages n) = consumer_message n d
step true d (buffers n) = producer_buffered_amount n d
step false d (buffers n) = consumer_buffered_amount n d

unfoldable pub run : Bool → Endpoint → List Happening → Endpoint
run b d [] = d
run b d (h ∷ hs) = run b (step b d h) hs
