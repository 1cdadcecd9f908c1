-- ===== src/Handler/Connection.antt =====
-- What the handlers use of WebRTC and of sdptransform: PeerConnection (include/PeerConnection.hpp) with
-- its transceivers and senders, and the application behind Handler::PrivateListener. Tracks,
-- transceivers, senders and receivers are numbers. `P` is the state of all this.
use libmediasouphandler.Base.{ℕ, ℤ, String, Bool, Option, List}
use libmediasouphandler.Base.Result.{Result}
use libmediasouphandler.Base.State.{Method}
use libmediasouphandler.Json.{Json}
use libmediasouphandler.Sdp.MediaSection.Codecs.{ShowFloat}
use libmediasouphandler.Transport.Handlers.{Encoding}
use libmediasouphandler.SendTransport.{DataChannelInit}

-- PeerConnection::SdpType.
pub data SdpType : Type 0 where
  offer pranswer answer : SdpType

-- The other fields of webrtc::RtpEncodingParameters: the rid, and those that nothing touches.
pub record Others (Y : Type 0) : Type 0 where
  pub rid : String
  pub rest : Y

-- A double is a / 2 ^ k.
abbrev pub RtpEncoding : Type 0 → Type 0
RtpEncoding Y = Encoding (ℤ × ℕ) (Others Y)

-- webrtc::RtpParameters of a sender.
pub record SenderParameters (Y Q : Type 0) : Type 0 where
  pub encodings : List (RtpEncoding Y)
  pub others : Q

-- The peer connection's configuration: the URIs of its ICE servers, and all else.
pub record Configuration (C : Type 0) : Type 0 where
  pub servers : List String
  pub others : C

-- webrtc::DataChannelInit as it is given to the peer connection.
pub record ChannelConfig : Type 0 where
  pub negotiated : Bool
  pub id : ℤ
  pub init : DataChannelInit

pub record Peer (P D C Y Q : Type 0) : Type 0 where
  pub close : P → P
  pub get_stats : Method P Json
  pub get_sender_stats : ℕ → Method P Json
  pub get_receiver_stats : ℕ → Method P Json
  pub get_configuration : P → Configuration C
  pub set_configuration : Configuration C → Method P Bool
  pub track_kind : P → ℕ → String
  pub add_media : String → P → P
  pub add_track : ℕ → List (RtpEncoding Y) → Method P (Option ℕ)
  pub create_offer : Bool → Method P String
  pub create_answer : Method P String
  pub set_local_description : SdpType → String → Method P (Unit {0})
  pub set_remote_description : SdpType → String → Method P (Unit {0})
  pub get_local_description : P → Result String
  pub get_transceivers : P → List ℕ
  pub remove_track : ℕ → P → P
  pub mid : P → ℕ → Option String
  pub sender : ℕ → ℕ
  pub receiver : ℕ → ℕ
  pub set_inactive : ℕ → P → P
  pub set_track : ℕ → Option ℕ → P → P
  pub get_parameters : P → ℕ → SenderParameters Y Q
  pub set_parameters : ℕ → SenderParameters Y Q → P → Option String × P
  pub receiver_track : ℕ → ℕ
  pub create_data_channel : String → ChannelConfig → Method P D
  pub on_connect : Json → Method P (Unit {0})

-- sdptransform's parse, write and parseParams, and how a stream writes a float.
pub record SdpTransform : Type 0 where
  pub parse : String → Result Json
  pub write : Json → String
  pub parse_params : String → Result Json
  pub show_float : ShowFloat
