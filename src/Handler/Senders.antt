-- ===== src/Handler/Senders.antt =====
-- The methods of SendHandler in src/Handler.cpp on what is already sent: StopSending, ReplaceTrack,
-- SetMaxSpatialLayer, GetSenderStats and RestartIce.
use libmediasouphandler.Base.{
  ℕ, String, Bool, true, false, Option, none, some, List, [], ◌∷◌, if◌then◌else◌, eqb,
}
use libmediasouphandler.Base.Result.{Result, ok, err, error}
use libmediasouphandler.Base.State.{Method, ◌>>=◌, ◌>>◌, lift, pure, read}
use libmediasouphandler.Json.{Json}
use libmediasouphandler.Sdp.RemoteSdp.{close_media_section, update_ice_parameters}
use libmediasouphandler.Handler.{
  Handler, on_pc, change_pc, tell_pc, on_sdp, ask, present_mid, transceiver_of,
}
use libmediasouphandler.Handler.Connection.{Peer, SdpTransform, RtpEncoding}
use libmediasouphandler.Handler.Send.{offer_again}

module _ {Y : Type 0} where
  abbrev active_as : Bool → RtpEncoding Y → RtpEncoding Y
  active_as b e = record e { active = b }

  abbrev first_three : Bool → Bool → Bool → List (RtpEncoding Y) → List (RtpEncoding Y)
  first_three low medium high [] = []
  first_three low medium high (l ∷ []) = active_as low l ∷ []
  first_three low medium high (l ∷ m ∷ []) = active_as low l ∷ active_as medium m ∷ []
  first_three low medium high (l ∷ m ∷ h ∷ rest) =
      active_as low l ∷ active_as medium m ∷ active_as high h ∷ rest

  -- The encodings up to a layer are active, and those of the first three above it are not; any other
  -- number than 1, 2 or 3 changes nothing.
  unfoldable pub edit_layers : ℕ → List (RtpEncoding Y) → List (RtpEncoding Y)
  edit_layers layer es =
      if eqb layer 1
      then first_three true false false es
      else if eqb layer 2
      then first_three true true false es
      else if eqb layer 3
      then first_three true true true es
      else es

abbrev pub accepted : Option String → Result (Unit {0})
accepted none = ok tt
accepted (some message) = err (error message)

module _ {P D C Y Q : Type 0} (peer : Peer P D C Y Q) (lib : SdpTransform) where
  -- The section of a mid is closed, and the rest offered again.
  unfoldable pub close_sending : String → Method (Handler P) (Unit {0})
  unfolding close_media_section offer_again
  close_sending mid = do on_sdp (close_media_section mid); offer_again peer lib false

  unfoldable pub stop_transceiver : ℕ → Method (Handler P) (Unit {0})
  unfolding close_sending
  stop_transceiver transceiver = do
    change_pc (λ p.
        peer.remove_track (peer.sender transceiver)
          (peer.set_track (peer.sender transceiver) none p))
    mid ← ask (λ h. present_mid (peer.mid h.pc transceiver))
    close_sending mid

  unfoldable pub stop_sending : String → Method (Handler P) (Unit {0})
  unfolding transceiver_of stop_transceiver
  stop_sending local_id = do transceiver ← transceiver_of local_id; stop_transceiver transceiver

  unfoldable pub replace_track : String → Option ℕ → Method (Handler P) (Unit {0})
  unfolding transceiver_of
  replace_track local_id track = do
    transceiver ← transceiver_of local_id
    change_pc (peer.set_track (peer.sender transceiver) track)

  unfoldable pub set_layer_of : ℕ → ℕ → Method (Handler P) (Unit {0})
  unfolding edit_layers
  set_layer_of layer transceiver = do
    parameters ← read (λ h. peer.get_parameters h.pc (peer.sender transceiver))
    result ← tell_pc (
        peer.set_parameters (peer.sender transceiver)
          (record parameters { encodings = edit_layers layer parameters.encodings }))
    lift (accepted result)

  unfoldable pub set_max_spatial_layer : String → ℕ → Method (Handler P) (Unit {0})
  unfolding transceiver_of set_layer_of
  set_max_spatial_layer local_id layer = do
    transceiver ← transceiver_of local_id
    set_layer_of layer transceiver

  unfoldable pub get_sender_stats : String → Method (Handler P) Json
  unfolding transceiver_of
  get_sender_stats local_id = do
    transceiver ← transceiver_of local_id
    on_pc (peer.get_sender_stats (peer.sender transceiver))

  unfoldable pub restart_sending_ice : Json → Method (Handler P) (Unit {0})
  unfolding update_ice_parameters offer_again
  restart_sending_ice ice = do
    on_sdp (update_ice_parameters ice)
    ready ← read (λ h. h.transport_ready)
    if ready then offer_again peer lib true else pure tt
