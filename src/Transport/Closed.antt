-- ===== src/Transport/Closed.antt =====
-- A transport that is closed stays as it is, and so does its handler.
use libmediasouphandler.Base.{
  ℕ, String, Bool, true, Option, List, [], ◌∷◌, ◌≡◌, refl, Bool-cases, inl, inr,
}
use libmediasouphandler.Json.{Json}
use libmediasouphandler.Track.{Tracks}
use libmediasouphandler.Transport.{
  Transport, get_stats, restart_ice, update_ice_servers, produce, close_send, close_producer,
  get_producer_stats, consume, consume_data, close_recv, close_consumer, get_consumer_stats,
}
use libmediasouphandler.Transport.Handlers.{SendOps, RecvOps, Encoding}

-- The calls of a SendTransport but ProduceData, ReplaceTrack and SetMaxSpatialLayer.
pub data SendCall (E : Type 0) : Type 0 where
  closes asks_stats : SendCall E
  restarts_ice updates_servers : Json → SendCall E
  produces : Tracks → (String → Bool) → Option ℕ → List E → Option Json → Option Json → SendCall E
  closes_producer asks_producer : String → SendCall E

pub data RecvCall : Type 0 where
  closes asks_stats : RecvCall
  restarts_ice updates_servers : Json → RecvCall
  consumes : Json → String → String → String → Option Json → Json → RecvCall
  consumes_data : String → String → ℕ → String → String → RecvCall
  closes_consumer asks_consumer : String → RecvCall

module _ {H F X : Type 0} (fresh : X) (ops : SendOps H (Encoding F X)) where
  unfoldable pub send_step : SendCall (Encoding F X) → Transport H → Transport H
  send_step SendCall.closes t = (close_send fresh ops t).1
  send_step SendCall.asks_stats t = (get_stats ops.base t).1
  send_step (SendCall.restarts_ice ice) t = (restart_ice ops.base ice t).1
  send_step (SendCall.updates_servers servers) t = (update_ice_servers ops.base servers t).1
  send_step (produces tracks can track encodings options codec) t =
      (produce fresh ops tracks can track encodings options codec t).1
  send_step (closes_producer local_id) t = (close_producer fresh ops local_id t).1
  send_step (asks_producer local_id) t = (get_producer_stats fresh ops local_id t).1

  unfoldable pub send_run : List (SendCall (Encoding F X)) → Transport H → Transport H
  unfolding send_step
  send_run [] t = t
  send_run (c ∷ cs) t = send_run cs (send_step c t)

  closed_send_step :
      (c : SendCall (Encoding F X)) (t : Transport H) → t.closed ≡ true → send_step c t ≡ t
  unfolding send_step close_send get_stats restart_ice update_ice_servers produce close_producer
      get_producer_stats
  closed_send_step SendCall.closes t h = rw h refl
  closed_send_step SendCall.asks_stats t h = rw h refl
  closed_send_step (SendCall.restarts_ice ice) t h = rw h refl
  closed_send_step (SendCall.updates_servers servers) t h = rw h refl
  closed_send_step (produces tracks can track encodings options codec) t h = rw h refl
  closed_send_step (closes_producer local_id) t h = rw h refl
  closed_send_step (asks_producer local_id) t h = rw h refl

  closed_send_run :
      (cs : List (SendCall (Encoding F X))) (t : Transport H) → t.closed ≡ true → send_run cs t ≡ t
  unfolding send_run
  closed_send_run [] t h = refl
  closed_send_run (c ∷ cs) t h = rw (closed_send_step c t h) (closed_send_run cs t h)

  close_send_closes : (t : Transport H) → (close_send fresh ops t).1.closed ≡ true
  unfolding close_send
  close_send_closes t = elim (Bool-cases t.closed) [ inl h ↦ rw h refl | inr h ↦ rw h refl ]

  -- After Close, a SendTransport and its handler stay as Close has left them, whatever is called then but
  -- ProduceData, ReplaceTrack and SetMaxSpatialLayer: Close once more, the statistics, RestartIce,
  -- UpdateIceServers, Produce and CloseProducer, in any order.
  pub send_run-close_send :
      (cs : List (SendCall (Encoding F X))) (t : Transport H)
      → send_run cs (close_send fresh ops t).1 ≡ (close_send fresh ops t).1
  send_run-close_send cs t = closed_send_run cs (close_send fresh ops t).1 (close_send_closes t)

module _ {H R D : Type 0} (ops : RecvOps H R D) where
  unfoldable pub recv_step : RecvCall → Transport H → Transport H
  recv_step RecvCall.closes t = (close_recv ops t).1
  recv_step RecvCall.asks_stats t = (get_stats ops.base t).1
  recv_step (RecvCall.restarts_ice ice) t = (restart_ice ops.base ice t).1
  recv_step (RecvCall.updates_servers servers) t = (update_ice_servers ops.base servers t).1
  recv_step (consumes extended id producer_id kind parameters app_data) t =
      (consume ops extended id producer_id kind parameters app_data t).1
  recv_step (consumes_data id producer_id stream_id label protocol) t =
      (consume_data ops id producer_id stream_id label protocol t).1
  recv_step (closes_consumer local_id) t = (close_consumer ops local_id t).1
  recv_step (asks_consumer local_id) t = (get_consumer_stats ops local_id t).1

  unfoldable pub recv_run : List RecvCall → Transport H → Transport H
  unfolding recv_step
  recv_run [] t = t
  recv_run (c ∷ cs) t = recv_run cs (recv_step c t)
