-- ===== src/Device/Create.antt =====
-- CreateSendTransport and CreateRecvTransport of src/Device.cpp, up to the transport's constructor.
use libmediasouphandler.Base.{if◌then◌else◌}
use libmediasouphandler.Base.Result.{
  Result, ok, type_error, invalid_state_error, guard, ◌>>=◌, ◌>>◌,
}
use libmediasouphandler.Json.{Json, is_object, is_null}
use libmediasouphandler.Ortc.Validate.Sctp.{validate_sctp_parameters}
use libmediasouphandler.Ortc.Validate.Ice.{
  validate_ice_parameters, validate_ice_candidates, validate_dtls_parameters,
}
use libmediasouphandler.Device.{Device}

-- What a transport is constructed from, with the defaults that validation has filled in.
pub record TransportParameters : Type 0 where
  pub ice_parameters : Json
  pub ice_candidates : Json
  pub dtls_parameters : Json
  pub sctp_parameters : Json
  pub extended_rtp_capabilities : Json
  pub app_data : Json

abbrev validate_given : Json → Result Json
validate_given sctp = if is_null sctp then ok sctp else validate_sctp_parameters sctp

-- Both methods test and validate alike.
unfoldable pub create_transport :
    Json → Json → Json → Json → Json → Device → Result TransportParameters
create_transport ice candidates dtls sctp app_data d = do
  guard d.loaded (invalid_state_error "not loaded")
  guard (is_object app_data) (type_error "appData must be a JSON object")
  ice' ← validate_ice_parameters ice
  candidates' ← validate_ice_candidates candidates
  dtls' ← validate_dtls_parameters dtls
  sctp' ← validate_given sctp
  ok (record {
    ice_parameters = ice';
    ice_candidates = candidates';
    dtls_parameters = dtls';
    sctp_parameters = sctp';
    extended_rtp_capabilities = d.extended_rtp_capabilities;
    app_data = app_data;
  })
