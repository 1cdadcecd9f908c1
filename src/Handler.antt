-- ===== src/Handler.antt =====
-- The class Handler of src/Handler.cpp, over a peer connection (Handler.Connection) and the remote session
-- description. Send has SendHandler, Recv has RecvHandler.
pub mod Connection
pub mod State
pub mod Encodings
pub mod Send
pub mod Senders
pub mod Answer
pub mod Recv
pub mod Channels
pub mod Ops
pub mod Layers
pub mod Steps
pub mod Connect
pub mod Connected
pub mod Once
pub mod Runs
pub mod Sections
pub mod Stopped
pub mod Sent
pub mod Received
pub mod StreamIds
pub mod DataLimits
use libmediasouphandler.Base.{
  ℕ, String, Bool, true, false, Option, none, some, List, [], ◌∷◌, ◌==◌, if◌then◌else◌,
}
use libmediasouphandler.Base.Text.{is_empty}
use libmediasouphandler.Base.Result.{Error, Result, ok, err, error, undefined, std_error}
use libmediasouphandler.Base.State.{Method, ◌>>=◌, ◌>>◌, lift, pure, throw, read, modify, guard}
use libmediasouphandler.Json.{
  Json, str, iterate, find, get_string, json_empty, assign_member, traverse,
}
use libmediasouphandler.Sdp.RemoteSdp.{update_dtls_role, update_ice_parameters, get_sdp}
use libmediasouphandler.Sdp.RemoteSdp.State.{RemoteSdp, new_remote_sdp}
use libmediasouphandler.Sdp.RemoteSdp.Store.{lookup}
use libmediasouphandler.Sdp.Utils.{extract_dtls_parameters}
use libmediasouphandler.Handler.Connection.{Peer, SdpTransform}
use libmediasouphandler.Handler.State.{Handler, uris_of, local_object}

abbrev pub known : Option ℕ → Result ℕ
known none = err (error "associated RtpTransceiver not found")
known (some transceiver) = ok transceiver

-- value() of an optional text.
abbrev pub present_mid : Option String → Result String
present_mid none = err (std_error "bad_optional_access")
present_mid (some mid) = ok mid

module _ {P : Type 0} where
  -- Calls of the peer connection, two kinds that cannot throw, and a call of the remote description.
  abbrev pub on_pc : {A : Type 0} → Method P A → Method (Handler P) A
  on_pc call h = let (r, pc) = call h.pc in (r, record h { pc = pc })

  abbrev pub change_pc : (P → P) → Method (Handler P) (Unit {0})
  change_pc f h = (ok tt, record h { pc = f h.pc })

  abbrev pub tell_pc : {A : Type 0} → (P → A × P) → Method (Handler P) A
  tell_pc call h = let (a, pc) = call h.pc in (ok a, record h { pc = pc })

  abbrev pub on_sdp : {A : Type 0} → Method RemoteSdp A → Method (Handler P) A
  on_sdp call h = let (r, sdp) = call h.remote_sdp in (r, record h { remote_sdp = sdp })

  -- The transceiver of a local id.
  unfoldable pub transceiver_of : String → Method (Handler P) ℕ
  unfolding lookup
  transceiver_of local_id h = (known (lookup local_id h.map_mid_transceiver), h)

  -- A computation from the fields.
  abbrev pub ask : {A : Type 0} → (Handler P → Result A) → Method (Handler P) A
  ask f h = (f h, h)

  -- The role forced, or that of the handler's kind.
  abbrev pub dtls_role : String → Handler P → String
  dtls_role own h = if is_empty h.forced_local_dtls_role then own else h.forced_local_dtls_role

module _ {P D C Y Q : Type 0} (peer : Peer P D C Y Q) (lib : SdpTransform) where
  unfoldable pub close : Handler P → Handler P
  close h = record h { pc = peer.close h.pc }

  unfoldable pub get_transport_stats : Method (Handler P) Json
  get_transport_stats = on_pc peer.get_stats

  unfoldable pub update_ice_servers : Json → Method (Handler P) (Unit {0})
  unfolding iterate uris_of
  update_ice_servers uris = do
    configuration ← read (λ h. peer.get_configuration h.pc)
    servers ← lift (uris_of (iterate uris))
    set ← on_pc (peer.set_configuration (record configuration { servers = servers }))
    guard set (error "failed to update ICE servers")

  -- The DTLS role is set on both sides before the application connects, and the transport is ready when
  -- it has.
  unfoldable pub setup_transport : String → Json → Method (Handler P) Json
  unfolding local_object extract_dtls_parameters assign_member update_dtls_role
  setup_transport role given = do
    local ← ask (λ h. local_object peer lib h.pc given)
    dtls ← lift (extract_dtls_parameters local)
    dtls' ← lift (assign_member "role" (some (str role)) dtls)
    on_sdp (update_dtls_role (if role == "client" then "server" else "client"))
    on_pc (peer.on_connect dtls')
    modify (λ h. record h { transport_ready = true })
    pure local

  -- SetupTransport where the transport is not ready, with the role forced or that of the kind.
  unfoldable pub ensure_transport : String → Json → Method (Handler P) (Unit {0})
  unfolding setup_transport
  ensure_transport own local h =
      if h.transport_ready
      then (ok tt, h)
      else (setup_transport (dtls_role own h) local >>= λ unused. pure tt) h
