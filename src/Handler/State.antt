-- ===== src/Handler/State.antt =====
-- The fields of the class Handler of src/Handler.cpp, and its constructor.
use libmediasouphandler.Base.{
  ℕ, String, Bool, false, Option, none, some, List, [], ◌∷◌, ◌==◌, if◌then◌else◌,
}
use libmediasouphandler.Base.Result.{Result, ok, ◌>>=◌}
use libmediasouphandler.Json.{Json, find, get_string, json_empty}
use libmediasouphandler.Sdp.RemoteSdp.State.{RemoteSdp, new_remote_sdp}
use libmediasouphandler.Sdp.Utils.Capabilities.{extract_rtp_capabilities}
use libmediasouphandler.Handler.Connection.{Peer, SdpTransform}

-- The map's transceivers are numbers.
pub record Handler (P : Type 0) : Type 0 where
  pub pc : P
  pub remote_sdp : RemoteSdp
  pub transport_ready : Bool
  pub map_mid_transceiver : List (String × ℕ)
  pub has_data_channel_media_section : Bool
  pub next_send_sctp_stream_id : ℕ
  pub forced_local_dtls_role : String

-- The role that the remote one forces, if it is not auto.
unfoldable pub forced_role : Option Json → Result String
forced_role none = ok ""
forced_role (some value) = do
  role ← get_string value
  ok (if role == "auto" then "" else if role == "server" then "client" else "server")

-- The constructor; `connection` is what PeerConnection's constructor returns or throws.
unfoldable pub new_handler :
    {P : Type 0} → Result P → Json → Json → Json → Json → Result (Handler P)
unfolding forced_role find new_remote_sdp
new_handler connection ice candidates dtls sctp = do
  role ← forced_role (find "role" dtls)
  pc ← connection
  remote_sdp ← new_remote_sdp ice candidates dtls sctp
  ok (record {
    pc = pc;
    remote_sdp = remote_sdp;
    transport_ready = false;
    map_mid_transceiver = [];
    has_data_channel_media_section = false;
    next_send_sctp_stream_id = 0;
    forced_local_dtls_role = role;
  })

-- The URIs of the servers that UpdateIceServers is given.
unfoldable pub uris_of : List Json → Result (List String)
uris_of [] = ok []
uris_of (uri ∷ rest) = do text ← get_string uri; more ← uris_of rest; ok (text ∷ more)

-- The local description's object, parsed where an empty one is given.
unfoldable pub local_object :
    {P D C Y Q : Type 0} → Peer P D C Y Q → SdpTransform → P → Json → Result Json
local_object peer lib pc given =
    if json_empty given then (do text ← peer.get_local_description pc; lib.parse text) else ok given

-- GetNativeRtpCapabilities: what a connection with a transceiver of each kind offers.
unfoldable pub native_rtp_capabilities :
    {P D C Y Q : Type 0} → Peer P D C Y Q → SdpTransform → Result P → Result Json
unfolding extract_rtp_capabilities
native_rtp_capabilities peer lib connection = do
  pc ← connection
  text ← (peer.create_offer false (peer.add_media "video" (peer.add_media "audio" pc))).0
  sdp ← lib.parse text
  extract_rtp_capabilities lib.parse_params sdp
