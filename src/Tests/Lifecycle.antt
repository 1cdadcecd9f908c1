-- ===== src/Tests/Lifecycle.antt =====
-- Producers, consumers and data channels run, and their theorems applied.
use libmediasouphandler.Base.{true, false, none, some, List, [], ◌∷◌, refl, eqb, if◌then◌else◌}
use libmediasouphandler.Base.Result.{ok, error}
use libmediasouphandler.Json.{null}
use libmediasouphandler.Track.{Tracks}
use libmediasouphandler.Producer
use libmediasouphandler.Producer.{Producer, PrivateListener}
use libmediasouphandler.Producer.Once.{ToldOnce, run-ToldOnce}
use libmediasouphandler.Consumer
use libmediasouphandler.Consumer.{Consumer}
use libmediasouphandler.Consumer.Once.{HeardOnce, run-HeardOnce}
use libmediasouphandler.DataChannel
use libmediasouphandler.DataChannel.{Endpoint, closed_state}
use libmediasouphandler.DataChannel.Once.{EndsOnce, run-EndsOnce}

-- Track 1 is enabled, the others are not; track 3 has ended.
abbrev tracks : Tracks
tracks = record { kind = λ t. "video"; ended = λ t. eqb t 3; enabled = λ t. eqb t 1 }

abbrev producer : Producer
producer = record {
  id = "p";
  local_id = "0";
  track = 1;
  rtp_parameters = null;
  is_closed = false;
  spatial_layer = 0;
  app_data = null;
  tracks = tracks;
  told = [];
}

-- The transport refuses track 4.
abbrev listener : PrivateListener
listener = record {
  on_replace_track = λ t. if eqb t 4 then some (error "refused") else none;
  on_set_max_spatial_layer = λ n. none;
  on_get_stats = ok null;
}

abbrev calls : List Producer.Call
calls =
    Producer.pauses ∷ Producer.replaces (some 2) ∷ Producer.closes ∷ Producer.transport_closes ∷ []

run-ToldOnce_example : ToldOnce (Producer.run listener producer calls)
run-ToldOnce_example = run-ToldOnce listener producer calls refl

abbrev consumer : Consumer
consumer = record {
  id = "c";
  local_id = "0";
  producer_id = "p";
  track = 1;
  rtp_parameters = null;
  is_closed = false;
  app_data = null;
  tracks = tracks;
  told = [];
}

abbrev consumer_calls : List Consumer.Call
consumer_calls = Consumer.pauses ∷ Consumer.transport_closes ∷ Consumer.closes ∷ []

run-HeardOnce_example : HeardOnce (Consumer.run consumer consumer_calls)
run-HeardOnce_example = run-HeardOnce consumer consumer_calls refl

abbrev endpoint : Endpoint
endpoint = record {
  id = "d";
  sctp_stream_parameters = null;
  app_data = null;
  is_closed = false;
  close_calls = 0;
  told = [];
}

abbrev happenings : List DataChannel.Happening
happenings =
    DataChannel.messages 5
    ∷ DataChannel.transport_closes
    ∷ DataChannel.changes_state closed_state
    ∷ DataChannel.closes
    ∷ []

run-EndsOnce_example : EndsOnce (DataChannel.run true endpoint happenings)
run-EndsOnce_example = run-EndsOnce true endpoint happenings (refl, refl)
