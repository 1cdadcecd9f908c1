-- ===== src/Sdp/Utils.antt =====
-- Two of the readers of src/sdp/Utils.cpp: extractDtlsParameters and getCname.
pub mod Encodings
pub mod Simulcast
mod Lines
pub mod Streams
pub mod Parameters
pub mod Capabilities
use libmediasouphandler.Base.{
  String, Bool, true, false, not, Option, none, some, [], ◌∷◌, ◌==◌, if◌then◌else◌, ◌≡◌, refl,
}
use libmediasouphandler.Base.Result.{Result, ok, ◌>>=◌}
use libmediasouphandler.Json.{
  Json, int, null, str, array, object, iterate, const_element, member_or_null, find, get_string,
  json_eq, find_if,
}

abbrev is_some : Option Json → Bool
is_some none = false
is_some (some v) = true

-- A section with ICE parameters that is not closed.
abbrev pub is_active : Json → Result Bool
unfolding find const_element json_eq
is_active media =
    if is_some (find "iceUfrag" media)
    then (do port ← const_element "port" media; ok (not (json_eq port (int 0))))
    else ok false

abbrev or_null : Option Json → Json
or_null none = null
or_null (some v) = v

-- The fingerprint of the section, or that of the session, or null.
unfoldable pub fingerprint_of : Json → Json → Json
unfolding find
fingerprint_of media sdp = elim (find "fingerprint" media) [
  | some f ↦ f
  | none ↦ or_null (find "fingerprint" sdp)
]

-- The role of a setup attribute; a text that is none has no role.
unfoldable pub role_of : String → String
role_of setup =
    if setup == "active"
    then "client"
    else if setup == "passive"
    then "server"
    else if setup == "actpass"
    then "auto"
    else ""

abbrev setup_role : Option Json → Result String
unfolding role_of
setup_role none = ok ""
setup_role (some v) = do setup ← get_string v; ok (role_of setup)

unfoldable pub extract_dtls_parameters : Json → Result Json
unfolding find_if is_active fingerprint_of setup_role find const_element
extract_dtls_parameters sdp = do
  media ← const_element "media" sdp
  active ← find_if is_active (iterate media)
  let m = or_null active
  role ← setup_role (find "setup" m)
  algorithm ← member_or_null "type" (fingerprint_of m sdp)
  value ← member_or_null "hash" (fingerprint_of m sdp)
  ok (
      object (
        ("role", str role)
        ∷ ("fingerprints", array (object (("algorithm", algorithm) ∷ ("value", value) ∷ []) ∷ []))
        ∷ []))

abbrev is_text : Option Json → Bool
is_text (some (str s)) = true
is_text _ = false

-- A line whose attribute is a text, whichever text.
abbrev pub has_attribute : Json → Result Bool
unfolding find
has_attribute line = ok (is_text (find "attribute" line))

abbrev line_value : Option Json → Result String
unfolding const_element
line_value none = ok ""
line_value (some line) = do value ← const_element "value" line; get_string value

abbrev cname_in : Option Json → Result String
unfolding find_if has_attribute line_value
cname_in none = ok ""
cname_in (some lines) = do line ← find_if has_attribute (iterate lines); line_value line

-- The value of the first such line.
unfoldable pub get_cname : Json → Result String
unfolding find cname_in
get_cname media = cname_in (find "ssrcs" media)

-- The first line counts, though its attribute is not cname.
get_cname_run :
    get_cname (
      object (
        (
          "ssrcs",
          array (
              object (("attribute", str "msid") ∷ ("value", str "s t") ∷ [])
              ∷ object (("attribute", str "cname") ∷ ("value", str "c") ∷ [])
              ∷ []),
        )
        ∷ []))
    ≡ ok "s t"
unfolding get_cname find iterate find_if const_element
get_cname_run = refl
