-- ===== src/Sdp/MediaSection.antt =====
-- The class MediaSection of src/sdp/MediaSection.cpp: one m= section of the remote description.
pub mod Codecs
pub mod Options
pub mod Answer
pub mod Offer
use libmediasouphandler.Base.{
  String, Bool, true, false, Option, none, some, List, [], ◌∷◌, ◌==◌, if◌then◌else◌,
}
use libmediasouphandler.Base.Result.{Result, ok, ◌>>=◌}
use libmediasouphandler.Json.{
  Json, int, number_unsigned, str, obj, Fields, end, put, erase, array, members, iterate,
  const_element, find, get_string, json_eq, traverse,
}
use libmediasouphandler.Ortc.Extended.{with_member}

-- AnswerMediaSection or OfferMediaSection.
pub data Side : Type 0 where
  answer offer : Side

pub record MediaSection : Type 0 where
  pub side : Side
  pub object : Fields

-- Members put one after the other.
unfoldable pub put_all : List (String × Json) → Fields → Fields
unfolding put
put_all [] fs = fs
put_all ((k, v) ∷ ms) fs = put_all ms (put k v fs)

unfoldable pub get_mid : MediaSection → Result String
get_mid m = do value ← const_element "mid" (obj m.object); get_string value

unfoldable pub is_closed : MediaSection → Result Bool
is_closed m = do port ← const_element "port" (obj m.object); ok (json_eq port (int 0))

unfoldable pub get_object : MediaSection → Json
get_object m = obj m.object

unfoldable pub put_ice_parameters : Json → Fields → Result Fields
unfolding put
put_ice_parameters ice fs = do
  fragment ← const_element "usernameFragment" ice
  password ← const_element "password" ice
  ok (put "icePwd" password (put "iceUfrag" fragment fs))

unfoldable pub set_ice_parameters : Json → MediaSection → Result MediaSection
unfolding put_ice_parameters
set_ice_parameters ice m = do fs ← put_ice_parameters ice m.object; ok (record m { object = fs })

-- What both states take off the section.
abbrev erase_media : Fields → Fields
erase_media fs =
    erase "rids" (erase "simulcast" (erase "ssrcGroups" (erase "ssrcs" (erase "ext" fs))))

unfoldable pub disable : MediaSection → MediaSection
unfolding put erase
disable m = record m { object = erase_media (put "direction" (str "inactive") m.object) }

unfoldable pub close : MediaSection → MediaSection
unfolding put erase
close m = record m {
  object =
      erase "extmapAllowMixed"
        (erase_media (put "port" (int 0) (put "direction" (str "inactive") m.object)));
}

-- The setup attribute of a DTLS role; a text that is no role has none.
unfoldable pub setup_of : String → Option Json
setup_of role =
    if role == "client"
    then some (str "active")
    else if role == "server"
    then some (str "passive")
    else if role == "auto"
    then some (str "actpass")
    else none

-- The SDP offer always has actpass.
unfoldable pub with_role : Side → String → Fields → Fields
unfolding put setup_of
with_role answer role fs = with_member "setup" (setup_of role) fs
with_role offer role fs = put "setup" (str "actpass") fs

unfoldable pub set_dtls_role : String → MediaSection → MediaSection
unfolding with_role
set_dtls_role role m = record m { object = with_role m.side role m.object }

-- An ICE candidate's line; with rtcp-mux the component is RTP always.
unfoldable pub candidate_line : Json → Result Json
unfolding put
candidate_line candidate = do
  foundation ← const_element "foundation" candidate
  ip ← const_element "ip" candidate
  port ← const_element "port" candidate
  priority ← const_element "priority" candidate
  transport ← const_element "protocol" candidate
  type ← const_element "type" candidate
  ok (
      obj (
        with_member "tcptype" (find "tcpType" candidate) (
          members (
            ("component", int 1)
            ∷ ("foundation", foundation)
            ∷ ("ip", ip)
            ∷ ("port", port)
            ∷ ("priority", priority)
            ∷ ("transport", transport)
            ∷ ("type", type)
            ∷ []))))

-- The constructor of the base class: ICE parameters and candidates.
unfoldable pub new_object : Json → Json → Result Fields
unfolding put put_ice_parameters
new_object ice candidates = do
  fs ← put_ice_parameters ice end
  lines ← traverse candidate_line (iterate candidates)
  ok (
      put "iceOptions" (str "renomination")
        (put "endOfCandidates" (str "end-of-candidates") (put "candidates" (array lines) fs)))
