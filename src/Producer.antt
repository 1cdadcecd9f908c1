-- ===== src/Producer.antt =====
-- src/Producer.cpp. The listeners are the transport and the application: what they are told is
-- written down, and whether they refuse a request is a parameter.
pub mod Once
pub mod Replace
use libmediasouphandler.Base.{
  ℕ, String, Bool, true, false, not, Option, none, some, List, [], ◌∷◌, ◌==◌, eqb, if◌then◌else◌,
}
use libmediasouphandler.Base.Result.{Error, Result, ok, err, type_error, invalid_state_error}
use libmediasouphandler.Json.{Json}
use libmediasouphandler.Track.{Tracks, set_enabled}

-- PrivateListener::OnClose, Listener::OnTransportClose, and the requests to the transport.
pub data Event : Type 0 where
  closed transport_closed : Event
  replace_track : ℕ → Event
  max_spatial_layer : ℕ → Event

-- A producer with the tracks that it shares, and what its listeners were told, newest first.
-- The flag `paused` of the class, which nothing reads or writes, is left out.
pub record Producer : Type 0 where
  pub id : String
  pub local_id : String
  pub track : ℕ
  pub rtp_parameters : Json
  pub is_closed : Bool
  pub spatial_layer : ℕ
  pub app_data : Json
  pub tracks : Tracks
  pub told : List Event

-- The transport's answers, some error where it throws, and its statistics.
pub record PrivateListener : Type 0 where
  pub on_replace_track : ℕ → Option Error
  pub on_set_max_spatial_layer : ℕ → Option Error
  pub on_get_stats : Result Json

-- What a method returns or throws, and the producer afterwards.
abbrev pub Method : Type 0 → Type 0
Method A = Producer → Result A × Producer

unfoldable pub is_paused : Producer → Bool
is_paused p = not (p.tracks.enabled p.track)

unfoldable pub get_kind : Producer → String
get_kind p = p.tracks.kind p.track

abbrev tell : Event → Producer → Producer
tell e p = record p { told = e ∷ p.told }

unfoldable pub close : Producer → Producer
close p = if p.is_closed then p else record p { is_closed = true; told = closed ∷ p.told }

unfoldable pub transport_close : Producer → Producer
transport_close p =
    if p.is_closed then p else record p { is_closed = true; told = transport_closed ∷ p.told }

unfoldable pub pause : Producer → Producer
unfolding set_enabled
pause p = if p.is_closed then p else record p { tracks = set_enabled p.track false p.tracks }

unfoldable pub resume : Producer → Producer
unfolding set_enabled
resume p = if p.is_closed then p else record p { tracks = set_enabled p.track true p.tracks }

module _ (listener : PrivateListener) where
  unfoldable pub get_stats : Method Json
  get_stats p =
      if p.is_closed
      then (err (invalid_state_error "Producer closed"), p)
      else (listener.on_get_stats, p)

  -- The new track, enabled as the old one was.
  abbrev take_track : ℕ → Producer → Producer
  take_track t p = record p {
    track = t;
    tracks = set_enabled t (p.tracks.enabled p.track) p.tracks;
  }

  abbrev replace_allowed : ℕ → Option Error → Method (Unit {0})
  replace_allowed t (some e) p = (err e, tell (replace_track t) p)
  replace_allowed t none p = (ok tt, take_track t (tell (replace_track t) p))

  abbrev replace_given : Option ℕ → Method (Unit {0})
  replace_given none p = (err (type_error "missing track"), p)
  replace_given (some t) p =
      if p.tracks.ended t
      then (err (invalid_state_error "track ended"), p)
      else if eqb t p.track
      then (ok tt, p)
      else replace_allowed t (listener.on_replace_track t) p

  unfoldable pub replace : Option ℕ → Method (Unit {0})
  unfolding set_enabled
  replace t p =
      if p.is_closed then (err (invalid_state_error "Producer closed"), p) else replace_given t p

  abbrev layer_allowed : ℕ → Option Error → Method (Unit {0})
  layer_allowed n (some e) p = (err e, tell (max_spatial_layer n) p)
  layer_allowed n none p = (ok tt, record (tell (max_spatial_layer n) p) { spatial_layer = n })

  unfoldable pub set_max_spatial_layer : ℕ → Method (Unit {0})
  unfolding get_kind
  set_max_spatial_layer n p =
      if p.is_closed
      then (err (invalid_state_error "Producer closed"), p)
      else if not (get_kind p == "video")
      then (err (type_error "not a video Producer"), p)
      else if eqb n p.spatial_layer
      then (ok tt, p)
      else layer_allowed n (listener.on_set_max_spatial_layer n) p

-- The calls that an application or the transport makes.
pub data Call : Type 0 where
  closes transport_closes pauses resumes gets_stats : Call
  replaces : Option ℕ → Call
  sets_layer : ℕ → Call

unfoldable pub step : PrivateListener → Producer → Call → Producer
step l p closes = close p
step l p transport_closes = transport_close p
step l p pauses = pause p
step l p resumes = resume p
step l p gets_stats = (get_stats l p).1
step l p (replaces t) = (replace l t p).1
step l p (sets_layer n) = (set_max_spatial_layer l n p).1

unfoldable pub run : PrivateListener → Producer → List Call → Producer
run l p [] = p
run l p (c ∷ cs) = run l (step l p c) cs
