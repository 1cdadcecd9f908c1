-- ===== src/PeerConnection/Create.antt =====
-- The constructor of src/PeerConnection.cpp.
use libmediasouphandler.Base.{String, Bool, ◌&&◌, Option, none, some}
use libmediasouphandler.Base.Result.{Result, ok, invalid_state_error, guard, ◌>>=◌, ◌>>◌}

-- RTCConfiguration, as far as the constructor reads it.
pub record RtcConfiguration (C : Type 0) : Type 0 where
  pub sdp_semantics : String
  pub others : C

pub record Options (C F : Type 0) : Type 0 where
  pub config : RtcConfiguration C
  pub factory : Option F

-- What the constructor uses: the default configuration, whether the three threads start,
-- CreatePeerConnectionFactory on them, and CreatePeerConnection.
pub record Factories (W C F : Type 0) : Type 0 where
  pub default_config : RtcConfiguration C
  pub network_starts : Bool
  pub signaling_starts : Bool
  pub worker_starts : Bool
  pub builtin : F
  pub create_peer_connection : F → RtcConfiguration C → Option W

module _ {W C F : Type 0} (factories : Factories W C F) where
  unfoldable pub given_config : Option (Options C F) → RtcConfiguration C
  given_config none = factories.default_config
  given_config (some options) = options.config

  abbrev given_factory : Option (Options C F) → Option F
  given_factory none = none
  given_factory (some options) = options.factory

  unfoldable pub factory_of : Option F → Result F
  factory_of (some factory) = ok factory
  factory_of none =
      guard (factories.network_starts && factories.signaling_starts && factories.worker_starts)
        (invalid_state_error "thread start errored")
      >> ok factories.builtin

  -- The peer connection, which may be the null pointer.
  unfoldable pub new_peer_connection : Option (Options C F) → Result (Option W)
  unfolding given_config factory_of
  new_peer_connection options = do
    factory ← factory_of (given_factory options)
    ok (
        factories.create_peer_connection factory
          (record (given_config options) { sdp_semantics = "unified-plan" }))
