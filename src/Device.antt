-- ===== src/Device.antt =====
-- src/Device.cpp. What WebRTC can do on this device is a parameter: the RTP capabilities that
-- Handler::GetNativeRtpCapabilities reads off an offer, or what it throws.
pub mod Loading
pub mod Create
use libmediasouphandler.Base.{
  ℕ, String, Bool, true, false, not, ◌&&◌, ◌||◌, Option, none, some, List, [], ◌∷◌, ◌==◌,
  if◌then◌else◌,
}
use libmediasouphandler.Base.Result.{Result, ok, err, type_error, invalid_state_error}
use libmediasouphandler.Base.State.{Method, ◌>>=◌, ◌>>◌, lift, modify}
use libmediasouphandler.Json.{Json, null, number_unsigned, object, is_object, is_null}
use libmediasouphandler.Ortc.Match.{H264}
use libmediasouphandler.Ortc.Extended.{get_extended_rtp_capabilities}
use libmediasouphandler.Ortc.Recv.{get_recv_rtp_capabilities}
use libmediasouphandler.Ortc.Send.{can_send}
use libmediasouphandler.Ortc.Validate.Params.{validate_rtp_capabilities}
use libmediasouphandler.Ortc.Validate.Sctp.{validate_sctp_capabilities, validate_sctp_parameters}
use libmediasouphandler.Ortc.Validate.Ice.{
  validate_ice_parameters, validate_ice_candidates, validate_dtls_parameters,
}

-- The map canProduceByKind always has the two keys.
pub record Device : Type 0 where
  pub loaded : Bool
  pub extended_rtp_capabilities : Json
  pub recv_rtp_capabilities : Json
  pub can_produce_audio : Bool
  pub can_produce_video : Bool
  pub sctp_capabilities : Json

abbrev pub new_device : Device
new_device = record {
  loaded = false;
  extended_rtp_capabilities = null;
  recv_rtp_capabilities = null;
  can_produce_audio = false;
  can_produce_video = false;
  sctp_capabilities = null;
}

-- Handler::GetNativeSctpCapabilities: 1024 streams each way.
abbrev pub native_sctp_capabilities : Json
native_sctp_capabilities = object (
    ("numStreams", object (("OS", number_unsigned 1024) ∷ ("MIS", number_unsigned 1024) ∷ [])) ∷ [])

module _ (h264 : H264) (native_rtp : Result Json) where
  -- The rest of Load, on a device that is not loaded.
  unfoldable pub load_router : Json → Method Device (Unit {0})
  load_router router = do
    router' ← lift (validate_rtp_capabilities router)
    native ← lift native_rtp
    native' ← lift (validate_rtp_capabilities native)
    extended ← lift (get_extended_rtp_capabilities h264 native' router')
    modify (λ d. record d { extended_rtp_capabilities = extended })
    audio ← lift (can_send "audio" extended)
    modify (λ d. record d { can_produce_audio = audio })
    video ← lift (can_send "video" extended)
    modify (λ d. record d { can_produce_video = video })
    recv ← lift (get_recv_rtp_capabilities extended)
    modify (λ d. record d { recv_rtp_capabilities = recv })
    recv' ← lift (validate_rtp_capabilities recv)
    modify (λ d. record d { recv_rtp_capabilities = recv' })
    modify (λ d. record d { sctp_capabilities = native_sctp_capabilities })
    sctp ← lift (validate_sctp_capabilities native_sctp_capabilities)
    modify (λ d. record d { sctp_capabilities = sctp; loaded = true })

  unfoldable pub load : Json → Method Device (Unit {0})
  load router d =
      if d.loaded then (err (invalid_state_error "already loaded"), d) else load_router router d

unfoldable pub get_rtp_capabilities : Device → Result Json
get_rtp_capabilities d =
    if not d.loaded then err (invalid_state_error "not loaded") else ok d.recv_rtp_capabilities

unfoldable pub get_sctp_capabilities : Device → Result Json
get_sctp_capabilities d =
    if not d.loaded then err (invalid_state_error "not loaded") else ok d.sctp_capabilities

unfoldable pub can_produce : String → Device → Result Bool
can_produce kind d =
    if not d.loaded
    then err (invalid_state_error "not loaded")
    else if kind == "audio"
    then ok d.can_produce_audio
    else if kind == "video"
    then ok d.can_produce_video
    else err (type_error "invalid kind")
