-- ===== src/Handler/Answer.antt =====
-- What RecvHandler::Receive of src/Handler.cpp reads and changes in JSON: the CNAME of the RTP
-- parameters, and the section of the answer.
use libmediasouphandler.Base.{String, some, List, [], ◌∷◌, ◌==◌, if◌then◌else◌}
use libmediasouphandler.Base.Result.{Result, ok, err, undefined, json_error, ◌>>=◌}
use libmediasouphandler.Json.{
  Json, null, array, const_element, member_or_null, assign_member, get_string,
}
use libmediasouphandler.Sdp.Utils.Parameters.{list_of, apply_codec_parameters}
use libmediasouphandler.Handler.Connection.{SdpTransform}

unfoldable pub cname_of : Json → Result String
unfolding const_element
cname_of parameters = do
  rtcp ← const_element "rtcp" parameters
  cname ← const_element "cname" rtcp
  get_string cname

-- The first section with the mid is changed; without one the end iterator is read.
unfoldable pub change_section : (Json → Result Json) → String → List Json → Result (List Json)
unfolding const_element
change_section change mid [] = err undefined
change_section change mid (m ∷ ms) = do
  value ← const_element "mid" m
  text ← get_string value
  let later = change_section change mid ms
  if text == mid then (do m' ← change m; ok (m' ∷ ms)) else (do rest ← later; ok (m ∷ rest))

-- The end iterator of null, which find_if then gives, throws where it is read.
abbrev sections_of : Json → Result (List Json)
sections_of null = err (json_error 214)
sections_of media = list_of media

unfoldable pub settle_answer : SdpTransform → String → Json → Json → Result Json
unfolding member_or_null change_section apply_codec_parameters assign_member
settle_answer lib mid parameters sdp = do
  media ← member_or_null "media" sdp
  sections ← sections_of media
  sections' ←
      change_section (apply_codec_parameters lib.show_float lib.parse_params parameters) mid
        sections
  assign_member "media" (some (array sections')) sdp
