-- ===== src/Sdp/RemoteSdp/State.antt =====
-- The members of RemoteSdp, and its constructor.
use libmediasouphandler.Base.{ℕ, String, Bool, true, false, Option, none, some, List, [], ◌∷◌}
use libmediasouphandler.Base.Result.{Result, ok, err, json_error, undefined, ◌>>=◌}
use libmediasouphandler.Json.{
  Json, int, null, number_unsigned, str, arr, to_list, array, object, find, member_or_null,
}
use libmediasouphandler.Sdp.MediaSection.{MediaSection}

-- What changes in sdpObject, or depends on the parameters.
pub record SdpObject : Type 0 where
  pub icelite : Bool
  pub fingerprint : Json
  pub media : List Json
  pub mids : String
  pub session_version : ℕ

abbrev icelite_member : Bool → List (String × Json)
icelite_member true = ("icelite", str "ice-lite") ∷ []
icelite_member false = []

-- sdpObject, as the constructor sets it out.
unfoldable pub sdp_object : SdpObject → Json
sdp_object s = object (
    ("version", int 0)
    ∷ (
      "origin",
      object (
          ("address", str "0.0.0.0")
          ∷ ("ipVer", int 4)
          ∷ ("netType", str "IN")
          ∷ ("sessionId", int 10000)
          ∷ ("sessionVersion", number_unsigned s.session_version)
          ∷ ("username", str "libmediasoupclient")
          ∷ []),
    )
    ∷ ("name", str "-")
    ∷ ("timing", object (("start", int 0) ∷ ("stop", int 0) ∷ []))
    ∷ ("media", array s.media)
    ∷ ("msidSemantic", object (("semantic", str "WMS") ∷ ("token", str "*") ∷ []))
    ∷ ("fingerprint", s.fingerprint)
    ∷ ("groups", array (object (("type", str "BUNDLE") ∷ ("mids", str s.mids) ∷ []) ∷ []))
    ∷ icelite_member s.icelite)

pub record RemoteSdp : Type 0 where
  pub ice_parameters : Json
  pub ice_candidates : Json
  pub dtls_parameters : Json
  pub sctp_parameters : Json
  pub media_sections : List MediaSection
  pub mid_to_index : List (String × ℕ)
  pub first_mid : String
  pub sdp : SdpObject

abbrev pub is_some : Option Json → Bool
is_some none = false
is_some (some v) = true

abbrev last_of : List Json → Result Json
last_of [] = err undefined
last_of (x ∷ []) = ok x
last_of (x ∷ y ∷ rest) = last_of (y ∷ rest)

-- The latest fingerprint; without one, the index before the first is read.
unfoldable pub latest_fingerprint : Json → Result Json
latest_fingerprint null = err undefined
latest_fingerprint (arr xs) = last_of (to_list xs)
latest_fingerprint _ = err (json_error 305)

-- The constructor.
unfoldable pub new_remote_sdp : Json → Json → Json → Json → Result RemoteSdp
unfolding member_or_null find latest_fingerprint
new_remote_sdp ice candidates dtls sctp = do
  fingerprints ← member_or_null "fingerprints" dtls
  latest ← latest_fingerprint fingerprints
  algorithm ← member_or_null "algorithm" latest
  value ← member_or_null "value" latest
  ok (record {
    ice_parameters = ice;
    ice_candidates = candidates;
    dtls_parameters = dtls;
    sctp_parameters = sctp;
    media_sections = [];
    mid_to_index = [];
    first_mid = "";
    sdp = record {
      icelite = is_some (find "iceLite" ice);
      fingerprint = object (("type", algorithm) ∷ ("hash", value) ∷ []);
      media = [];
      mids = "";
      session_version = 0;
    };
  })
