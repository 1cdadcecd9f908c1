-- ===== src/Handler/Recv.antt =====
-- The class RecvHandler of src/Handler.cpp; Handler.Channels has ReceiveDataChannel.
use libmediasouphandler.Base.{
  ℕ, String, Bool, false, Option, none, some, List, [], ◌∷◌, ◌==◌, if◌then◌else◌,
}
use libmediasouphandler.Base.Text.{is_empty, to_string}
use libmediasouphandler.Base.Result.{Result, ok, err, error}
use libmediasouphandler.Base.State.{Method, ◌>>=◌, ◌>>◌, lift, pure, read, modify}
use libmediasouphandler.Json.{Json, str, find, length}
use libmediasouphandler.Sdp.RemoteSdp.{receive, close_media_section, update_ice_parameters, get_sdp}
use libmediasouphandler.Sdp.RemoteSdp.Store.{insert}
use libmediasouphandler.Handler.{
  Handler, on_pc, on_sdp, ask, present_mid, transceiver_of, ensure_transport,
}
use libmediasouphandler.Handler.Connection.{Peer, SdpTransform, offer, answer}
use libmediasouphandler.Handler.Answer.{cname_of, settle_answer}

pub record RecvResult : Type 0 where
  pub local_id : String
  pub rtp_receiver : ℕ
  pub track : ℕ

abbrev size_text : List (String × ℕ) → String
unfolding to_string
size_text m = to_string (length m)

-- The mid of the parameters if it is a text that is not empty, or the size of the map.
unfoldable pub local_id_of : Option Json → List (String × ℕ) → String
unfolding size_text
local_id_of (some (str mid)) m = if is_empty mid then size_text m else mid
local_id_of _ m = size_text m

abbrev has_mid : Option String → String → Bool
has_mid none local_id = false
has_mid (some mid) local_id = mid == local_id

-- The first transceiver with the mid.
unfoldable pub with_mid : (ℕ → Option String) → String → List ℕ → Result ℕ
with_mid mid local_id [] = err (error "new RTCRtpTransceiver not found")
with_mid mid local_id (t ∷ ts) =
    let rest = with_mid mid local_id ts in if has_mid (mid t) local_id then ok t else rest

module _ {P D C Y Q : Type 0} (peer : Peer P D C Y Q) (lib : SdpTransform) where
  -- The remote description's text is set as the offer.
  unfoldable pub offer_remote : Method (Handler P) (Unit {0})
  unfolding get_sdp
  offer_remote = do
    text ← on_sdp (get_sdp lib.write)
    on_pc (peer.set_remote_description offer text)

  -- The answer again, after a change of the remote description.
  unfoldable pub answer_again : Method (Handler P) (Unit {0})
  unfolding offer_remote
  answer_again = do
    offer_remote
    text ← on_pc peer.create_answer
    on_pc (peer.set_local_description answer text)

  -- The answer to the new section, and the transport.
  unfoldable pub negotiate_receive : String → Json → Method (Handler P) (Unit {0})
  unfolding offer_remote settle_answer ensure_transport
  negotiate_receive local_id parameters = do
    offer_remote
    text ← on_pc peer.create_answer
    local ← lift (lib.parse text)
    local' ← lift (settle_answer lib local_id parameters local)
    ensure_transport peer lib "client" local'
    on_pc (peer.set_local_description answer (lib.write local'))

  -- The transceiver of the new section is noted.
  unfoldable pub note_transceiver : String → ℕ → Method (Handler P) RecvResult
  unfolding insert
  note_transceiver local_id transceiver = do
    modify
        (λ h. record h { map_mid_transceiver = insert local_id transceiver h.map_mid_transceiver })
    pure (record {
      local_id = local_id;
      rtp_receiver = peer.receiver transceiver;
      track = peer.receiver_track (peer.receiver transceiver);
    })

  unfoldable pub note_received : String → Method (Handler P) RecvResult
  unfolding with_mid note_transceiver
  note_received local_id = do
    transceiver ← ask (λ h. with_mid (peer.mid h.pc) local_id (peer.get_transceivers h.pc))
    note_transceiver local_id transceiver

  -- Receive, with the local id.
  unfoldable pub receive_as : String → String → Json → String → Method (Handler P) RecvResult
  unfolding cname_of receive negotiate_receive note_received
  receive_as id kind parameters local_id = do
    cname ← lift (cname_of parameters)
    on_sdp (receive lib.show_float local_id kind parameters cname id)
    negotiate_receive local_id parameters
    note_received local_id

  unfoldable pub receive_track : String → String → Json → Method (Handler P) RecvResult
  unfolding local_id_of find receive_as
  receive_track id kind parameters = do
    local_id ← read (λ h. local_id_of (find "mid" parameters) h.map_mid_transceiver)
    receive_as id kind parameters local_id

  unfoldable pub close_receiving : String → Method (Handler P) (Unit {0})
  unfolding close_media_section answer_again
  close_receiving mid = do on_sdp (close_media_section mid); answer_again

  unfoldable pub stop_receiving_of : ℕ → Method (Handler P) (Unit {0})
  unfolding close_receiving
  stop_receiving_of transceiver = do
    mid ← ask (λ h. present_mid (peer.mid h.pc transceiver))
    close_receiving mid

  unfoldable pub stop_receiving : String → Method (Handler P) (Unit {0})
  unfolding transceiver_of stop_receiving_of
  stop_receiving local_id = do transceiver ← transceiver_of local_id; stop_receiving_of transceiver

  unfoldable pub get_receiver_stats : String → Method (Handler P) Json
  unfolding transceiver_of
  get_receiver_stats local_id = do
    transceiver ← transceiver_of local_id
    on_pc (peer.get_receiver_stats (peer.receiver transceiver))

  unfoldable pub restart_receiving_ice : Json → Method (Handler P) (Unit {0})
  unfolding update_ice_parameters answer_again
  restart_receiving_ice ice = do
    on_sdp (update_ice_parameters ice)
    ready ← read (λ h. h.transport_ready)
    if ready then answer_again else pure tt
