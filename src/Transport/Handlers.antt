-- ===== src/Transport/Handlers.antt =====
-- The operations of Handler, SendHandler and RecvHandler (include/Handler.hpp) that transports call. A
-- track, a sender and a data channel are numbers or types of their own.
use libmediasouphandler.Base.{ℕ, ℤ, String, Bool, Option, List}
use libmediasouphandler.Base.State.{Method}
use libmediasouphandler.Json.{Json}

pub record HandlerOps (H : Type 0) : Type 0 where
  pub close : H → H
  pub get_transport_stats : Method H Json
  pub restart_ice : Json → Method H (Unit {0})
  pub update_ice_servers : Json → Method H (Unit {0})

-- SendHandler::SendResult.
pub record SendResult : Type 0 where
  pub local_id : String
  pub rtp_sender : ℕ
  pub rtp_parameters : Json

-- The fields of webrtc::RtpEncodingParameters that Produce copies, and all others; `F` is double.
pub record Encoding (F X : Type 0) : Type 0 where
  pub active : Bool
  pub max_bitrate_bps : Option ℤ
  pub max_framerate : Option F
  pub scale_resolution_down_by : Option F
  pub network_priority : ℕ
  pub scalability_mode : Option String
  pub others : X

pub record SendOps (H E : Type 0) : Type 0 where
  pub base : HandlerOps H
  pub send : ℕ → List E → Option Json → Option Json → Method H SendResult
  pub stop_sending : String → Method H (Unit {0})
  pub replace_track : String → Option ℕ → Method H (Unit {0})
  pub set_layer : String → ℕ → Method H (Unit {0})
  pub get_sender_stats : String → Method H Json

-- The fields of webrtc::DataChannelInit that ConsumeData sets.
pub record DataChannelRequest : Type 0 where
  pub protocol : String
  pub id : ℕ

pub record RecvOps (H R D : Type 0) : Type 0 where
  pub base : HandlerOps H
  pub receive : String → String → Json → Method H R
  pub stop_receiving : String → Method H (Unit {0})
  pub get_receiver_stats : String → Method H Json
  pub receive_data_channel : String → DataChannelRequest → Method H D
