-- ===== src/Ortc/Recv/Direction.antt =====
-- A header extension whose direction is no direction that ortc.cpp knows: validateRtpHeaderExtension
-- lets it through, getExtendedRtpCapabilities drops its direction, and getRecvRtpCapabilities reads the
-- direction that is not there.
use libmediasouphandler.Base.{String, none, ◌≡◌, ◌≢◌, refl, sym, ◌∙◌, eq_iff, arith}
use libmediasouphandler.Base.Result.{
  ok, err, undefined, ok_injective, Ensures, Ensures-ok, Ensures-bind_eq,
}
use libmediasouphandler.Json.{Json, str, const_element, member_or_null, get_string}
use libmediasouphandler.Ortc.Extended.{extended_extension, local_direction}
use libmediasouphandler.Ortc.Recv.{recv_extensions_of}

-- The text is none of the four directions.
abbrev pub NoDirection : String → Type 0
NoDirection s = (s ≢ "sendrecv") × (s ≢ "recvonly") × (s ≢ "sendonly") × (s ≢ "inactive")

no_local_direction : (s : String) → NoDirection s → local_direction s ≡ none
unfolding local_direction
no_local_direction s n = ground (
  arith,
  n.0,
  n.1,
  n.2,
  n.3,
  eq_iff s "sendrecv",
  eq_iff s "recvonly",
  eq_iff s "sendonly",
  eq_iff s "inactive",
)

get_string-str : (j : Json) (s t : String) → j ≡ str s → get_string j ≡ ok t → t ≡ s
get_string-str (str u) s t e h = cc
get_string-str j s t e h = cc

lost :
    (local remote : Json) (s : String)
    → member_or_null "direction" remote ≡ ok (str s)
    → NoDirection s
    → Ensures (λ ext. recv_extensions_of ext ≡ err undefined) (extended_extension local remote)
unfolding extended_extension recv_extensions_of const_element
lost local remote s d n = Ensures-bind_eq (member_or_null "kind" remote) _ λ kind _.
    Ensures-bind_eq (member_or_null "uri" remote) _ λ uri _.
      Ensures-bind_eq (member_or_null "preferredId" local) _ λ send_id _.
        Ensures-bind_eq (member_or_null "preferredId" remote) _ λ recv_id _.
          Ensures-bind_eq (member_or_null "preferredEncrypt" local) _ λ encrypt _.
            Ensures-bind_eq (member_or_null "direction" remote) _ λ value e.
              Ensures-bind_eq (get_string value) _ λ direction t.
                let same : direction ≡ s =
                  get_string-str value s direction (ok_injective (sym e ∙ d)) t in
                rw (same, no_local_direction s n) (Ensures-ok refl)

-- If the direction of a remote header extension is a text that is no direction, then the extended
-- extension that getExtendedRtpCapabilities makes of it and a local one has no direction, and on it
-- the loop of getRecvRtpCapabilities does what C++ leaves undefined.
pub unknown_direction_undefined :
    (local remote ext : Json) (s : String)
    → member_or_null "direction" remote ≡ ok (str s)
    → NoDirection s
    → extended_extension local remote ≡ ok ext
    → recv_extensions_of ext ≡ err undefined
unknown_direction_undefined local remote ext s d n = (lost local remote s d n).returns ext
