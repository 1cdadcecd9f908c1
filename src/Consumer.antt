-- ===== src/Consumer.antt =====
-- src/Consumer.cpp. The listeners are the transport and the application: what they are told is
-- written down.
pub mod Once
use libmediasouphandler.Base.{ℕ, String, Bool, true, false, not, List, [], ◌∷◌, if◌then◌else◌}
use libmediasouphandler.Base.Result.{Result, err, invalid_state_error}
use libmediasouphandler.Json.{Json}
use libmediasouphandler.Track.{Tracks, set_enabled}

-- PrivateListener::OnClose and Listener::OnTransportClose.
pub data Event : Type 0 where
  closed transport_closed : Event

-- A consumer with the tracks that it shares, and what its listeners were told, newest first.
-- The flag `paused` of the class, which nothing reads or writes, is left out.
pub record Consumer : Type 0 where
  pub id : String
  pub local_id : String
  pub producer_id : String
  pub track : ℕ
  pub rtp_parameters : Json
  pub is_closed : Bool
  pub app_data : Json
  pub tracks : Tracks
  pub told : List Event

unfoldable pub is_paused : Consumer → Bool
is_paused c = not (c.tracks.enabled c.track)

unfoldable pub close : Consumer → Consumer
close c = if c.is_closed then c else record c { is_closed = true; told = closed ∷ c.told }

unfoldable pub transport_close : Consumer → Consumer
transport_close c =
    if c.is_closed then c else record c { is_closed = true; told = transport_closed ∷ c.told }

unfoldable pub pause : Consumer → Consumer
unfolding set_enabled
pause c = if c.is_closed then c else record c { tracks = set_enabled c.track false c.tracks }

unfoldable pub resume : Consumer → Consumer
unfolding set_enabled
resume c = if c.is_closed then c else record c { tracks = set_enabled c.track true c.tracks }

-- GetStats, with the transport's answer.
unfoldable pub get_stats : Result Json → Consumer → Result Json
get_stats answer c = if c.is_closed then err (invalid_state_error "Consumer closed") else answer

pub data Call : Type 0 where
  closes transport_closes pauses resumes : Call

unfoldable pub step : Consumer → Call → Consumer
step c closes = close c
step c transport_closes = transport_close c
step c pauses = pause c
step c resumes = resume c

unfoldable pub run : Consumer → List Call → Consumer
run c [] = c
run c (k ∷ ks) = run (step c k) ks
